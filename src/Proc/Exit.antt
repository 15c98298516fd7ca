-- ===== src/Proc/Exit.antt =====
-- `New_exit`, which ends a process, and `kthread_exit`, which ends a thread, and its process if it
-- is the last one. `exit` calls `kthread_exit` (through `manage_exits`). What follows the switch to
-- the scheduler is not reached.
use assignment.Prelude.{
  ℕ, zero, suc, ◌+◌, Bool, false, ◌&&◌, not, List, [], ◌∷◌, map, Option, none, some, ◌==ℤ◌, ◌==◌,
  if◌then◌else◌, get_elem?, modify, count_if,
}
use assignment.Kernel.{Kernel, Proc, unused, zombie, in_sched, ◌==state◌, to_chan, same_ptr}
use assignment.Kalloc.{kfree}
use assignment.File.{fileclose}
use assignment.Env.{Env}
use assignment.Proc.Table.{wakeup1}

-- The loop of `New_exit` over the open files of the process.
unfoldable pub close_files : Env → List (Option ℕ) → Kernel → Option Kernel
close_files env [] k = some k
close_files env (none ∷ fs) k = close_files env fs k
close_files env (some f ∷ fs) k = elim (fileclose env f k) [
  | none ↦ none
  | some k' ↦ close_files env fs k'
]

-- One turn of the loop that passes the children on: a zombie wakes `init`.
unfoldable pub pass_on : ℕ → Option ℕ → ℕ → List Proc → List Proc
pass_on cur init i procs = elim (get_elem? procs i) [
  | none ↦ procs
  | some p ↦
      if same_ptr p.parent (some cur)
      then (let procs' = modify procs i (λ p. record p { parent = init }) in
          if p.state ==state zombie then wakeup1 (to_chan init) procs' else procs')
      else procs
]

-- The loop, from the entry `i` on with `n` entries left.
unfoldable pub pass_children : ℕ → ℕ → Option ℕ → ℕ → List Proc → List Proc
pass_children zero cur init i procs = procs
pass_children (suc n) cur init i procs = pass_children n cur init (i + 1) (pass_on cur init i procs)

-- The entry of a process or thread that has ended.
abbrev pub ended : Proc → Proc
ended p = record p { state = zombie; context = in_sched }

-- The part of `New_exit` under `ptable.lock`.
unfoldable pub leave : ℕ → Option ℕ → Kernel → Kernel
leave cur parent k = record k {
  procs = modify (pass_children 64 cur k.initproc 0 (wakeup1 (to_chan parent) k.procs)) cur ended;
}

-- `New_exit`
unfoldable pub new_exit : Env → ℕ → Kernel → Option Kernel
new_exit env cur k = if same_ptr k.initproc (some cur) then none else elim (get_elem? k.procs cur) [
  | none ↦ none
  | some proc ↦ elim (close_files env proc.ofile k) [
    | none ↦ none
    | some k1 ↦ elim proc.cwd [
      | none ↦ none
      | some cwd ↦
          elim (env.iput cwd (record k1 {
            procs = modify k1.procs cur (λ p. record p { ofile = map (λ _. none) p.ofile });
          })) [
            | none ↦ none
            | some k2 ↦ some (
                leave cur proc.parent
                  (record k2 { procs = modify k2.procs cur (λ p. record p { cwd = none }) }))
          ]
    ]
  ]
]

-- The threads that sleep in `kthread_join` for the caller wake up.
unfoldable pub wake_joiners : List (Option ℕ) → List Proc → List Proc
wake_joiners [] procs = procs
wake_joiners (none ∷ ts) procs = wake_joiners ts procs
wake_joiners (some i ∷ ts) procs = wake_joiners ts (wakeup1 (to_chan (some i)) procs)

-- A thread of the process that is neither a zombie nor gone.
abbrev pub is_thread_of : ℕ → Proc → Bool
is_thread_of pid p = p.pid == pid && (not (p.state ==state zombie) && not (p.state ==state unused))

-- `threadsCounter`
unfoldable pub threads_counter : ℕ → List Proc → ℕ
threads_counter pid procs = count_if (is_thread_of pid) procs

-- What `kthread_exit` and `wait` leave of an entry that they reap: 0 at the start of the name.
abbrev pub reaped : Proc → Proc
reaped p = record p {
  kstack = 0;
  state = unused;
  pid = 0;
  parent = none;
  name = modify p.name 0 (λ _. 0);
  killed = false;
}

-- A zombie of the process other than the caller.
abbrev pub is_dead_thread : Proc → Proc → Bool
is_dead_thread proc p =
    p.state ==state zombie && (p.pid == proc.pid && not (proc.thread_id ==ℤ p.thread_id))

-- The loop by which the last thread reaps the others: their stacks are freed.
unfoldable pub reap_threads : ℕ → Proc → List Proc → List ℕ → Option (List Proc × List ℕ)
reap_threads kernel_end proc [] freelist = some ([], freelist)
reap_threads kernel_end proc (p ∷ ps) freelist =
    if is_dead_thread proc p
    then elim (kfree kernel_end p.kstack freelist) [
      | none ↦ none
      | some freelist1 ↦ elim (reap_threads kernel_end proc ps freelist1) [
        | none ↦ none
        | some (ps', freelist') ↦ some (reaped p ∷ ps', freelist')
      ]
    ]
    else elim (reap_threads kernel_end proc ps freelist) [
      | none ↦ none
      | some (ps', freelist') ↦ some (p ∷ ps', freelist')
    ]

-- `kthread_exit`
unfoldable pub kthread_exit : Env → ℕ → Kernel → Option Kernel
kthread_exit env cur k =
    if same_ptr k.initproc (some cur) then none else elim (get_elem? k.procs cur) [
      | none ↦ none
      | some proc ↦
          let woken = wake_joiners proc.sleeping_threads k.procs in
          if threads_counter proc.pid woken == 1
          then elim (reap_threads k.kernel_end proc woken k.freelist) [
            | none ↦ none
            | some (procs, freelist) ↦
                new_exit env cur (record k { procs = procs; freelist = freelist })
          ]
          else some (record k { procs = modify woken cur ended })
    ]

-- `manage_exits`, and `exit`, which is nothing else
unfoldable pub manage_exits : Env → ℕ → Kernel → Option Kernel
manage_exits env cur k = kthread_exit env cur k

unfoldable pub exit : Env → ℕ → Kernel → Option Kernel
exit env cur k = manage_exits env cur k
