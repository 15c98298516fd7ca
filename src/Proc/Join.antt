-- ===== src/Proc/Join.antt =====
-- `wait`, for a child process to end, and `kthread_join`, for a thread.
use assignment.Prelude.{
  ◌+◌, ◌%◌, ◌^◌, List, map, ℕ, Bool, true, false, ◌&&◌, ◌||◌, not, Option, none, some, ℤ, pos,
  minus_one, ◌==ℤ◌, ◌==◌, ltb, if◌then◌else◌, get_elem?, modify, find_index, count_if, length,
}
use assignment.Kernel.{Kernel, Proc, zombie, ◌==state◌, proc_chan, same_ptr}
use assignment.Kalloc.{kern_base, v2p, kfree}
use assignment.Env.{Env}
use assignment.Vm.Memory.{Vm}
use assignment.Vm.User.{freevm}
use assignment.Proc.Table.{sleep, after_sleep}
use assignment.Proc.Exit.{reaped}

abbrev pub is_child : ℕ → Proc → Bool
is_child cur p = same_ptr p.parent (some cur)

abbrev pub is_dead_child : ℕ → Proc → Bool
is_dead_child cur p = same_ptr p.parent (some cur) && p.state ==state zombie

-- What one scan of the loop of `wait` comes to.
pub data Scan : Type 0 where
  returns : ℤ → Scan
  sleeps : Scan

-- `p2v`
abbrev pub p2v : ℕ → ℕ
p2v a = (a + kern_base) % 2 ^ 32

-- `freevm` of vm.c as the process code calls it, over the memory `vm`; the model of vm.c names pages
-- by their physical addresses.
unfoldable pub freevm_in : Vm → ℕ → List ℕ → Option (List ℕ)
freevm_in vm pgdir freelist =
    elim (freevm (v2p pgdir) (record vm { freelist = map v2p freelist })) [
      | none ↦ none
      | some (u, vm') ↦ some (map p2v vm'.freelist)
    ]

-- The zombie in the entry `i` is reaped, with its stack and its memory.
unfoldable pub reap : Env → ℕ → Proc → Kernel → Option (Scan × Kernel)
reap env i p k = elim (kfree k.kernel_end p.kstack k.freelist) [
  | none ↦ none
  | some freelist1 ↦ elim (env.freevm p.pgdir freelist1) [
    | none ↦ none
    | some freelist ↦
        some
          (returns (pos p.pid), record k { freelist = freelist; procs = modify k.procs i reaped })
  ]
]

-- One scan of `wait`. Where it sleeps, the scan is made again after it.
unfoldable pub wait : Env → ℕ → Kernel → Option (Scan × Kernel)
wait env cur k = elim (get_elem? k.procs cur) [
  | none ↦ none
  | some proc ↦ elim (find_index (is_dead_child cur) k.procs) [
    | some i ↦ elim (get_elem? k.procs i) [ none ↦ none | some p ↦ reap env i p k ]
    | none ↦
        if count_if (is_child cur) k.procs == 0 || proc.killed
        then some (returns minus_one, k)
        else some (sleeps, sleep cur (proc_chan cur) k)
  ]
]

abbrev pub is_joinable : ℤ → Proc → Bool
is_joinable tid p = p.thread_id ==ℤ tid && not (p.state ==state zombie)

abbrev pub is_free : Option ℕ → Bool
is_free none = true
is_free (some i) = false

-- Where `kthread_join` sleeps: the entry of the thread, and the index in its `sleepingThreads` at
-- which the caller stands, 64 if all are taken.
pub data Joining : Type 0 where
  no_thread : Joining
  joins : (p i : ℕ) → Joining

-- `kthread_join` up to its sleep.
unfoldable pub kthread_join : ℤ → ℕ → Kernel → Option (Joining × Kernel)
kthread_join tid cur k = elim (find_index (is_joinable tid) k.procs) [
  | none ↦ some (no_thread, k)
  | some p ↦ elim (get_elem? k.procs p) [
    | none ↦ none
    | some target ↦ elim (find_index is_free target.sleeping_threads) [
      | none ↦ some (joins p 64, sleep cur (proc_chan cur) k)
      | some i ↦ some (
        joins p i,
        sleep cur (proc_chan cur) (record k {
          procs =
              modify k.procs p
                (λ t. record t { sleeping_threads = modify t.sleeping_threads i (λ _. some cur) });
        }),
      )
    ]
  ]
]

-- `kthread_join` after its sleep, when it returns 0; `none` is the write behind the array.
unfoldable pub after_join : ℕ → ℕ → ℕ → Kernel → Option Kernel
after_join p i cur k = elim (get_elem? k.procs p) [
  | none ↦ none
  | some target ↦
      if ltb i (length target.sleeping_threads)
      then some (
          after_sleep cur (record k {
            procs =
                modify k.procs p
                  (λ t. record t { sleeping_threads = modify t.sleeping_threads i (λ _. none) });
          }))
      else none
]
