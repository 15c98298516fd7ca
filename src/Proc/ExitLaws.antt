-- ===== src/Proc/ExitLaws.antt =====
-- The end of a process: its children pass to `init`, it is a zombie, and its parent is awake. The
-- end of a thread that is not the last.
use assignment.Prelude.{
  ℕ, zero, suc, ◌+◌, ◌<◌, ◌≡◌, ◌≢◌, refl, ◌∙◌, ap, true, false, List, [], ◌∷◌, Option, none, some,
  arith, ◌==◌, get_elem?, modify, get_elem?-modify, get_elem?-modify_inv, length, length-modify,
  get_elem?-lt, count_if, count_if-modify, Option-cases, Bool-cases, inl, inr, dec_lt, ◌⊎◌,
}
use assignment.Kernel.{Kernel, Proc, zombie, runnable, ◌==state◌, Chan, to_chan, same_ptr}
use assignment.Env.{Env}
use assignment.Proc.Table.{wakeup1, sleeps_on}
use assignment.Proc.TableLaws.{get_elem?-wakeup1}
use assignment.Proc.Exit.{
  pass_on, pass_children, ended, leave, wake_joiners, threads_counter, is_thread_of, kthread_exit,
}

-- An entry whose parent is not `cur`.
abbrev Unrelated : ℕ → Option Proc → Type 0
Unrelated cur none = Unit
Unrelated cur (some p) = same_ptr p.parent (some cur) ≡ false

wakeup1-Unrelated :
    (cur : ℕ) (chan : Chan) (ps : List Proc) (j : ℕ)
    → Unrelated cur (get_elem? ps j)
    → Unrelated cur (get_elem? (wakeup1 chan ps) j)
wakeup1-Unrelated cur chan ps j h = ground (arith, h, get_elem?-wakeup1 chan ps j)

module _ (cur : ℕ) (init : Option ℕ) (elsewhere : same_ptr init (some cur) ≡ false) where
  -- One turn settles the entry `i`, and unsettles no other.
  pass_on-Unrelated :
      (i j : ℕ) (ps : List Proc)
      → Unrelated cur (get_elem? ps j) ⊎ (i ≡ j)
      → Unrelated cur (get_elem? (pass_on cur init i ps) j)
  unfolding pass_on
  pass_on-Unrelated i j ps h = elim (Option-cases (get_elem? ps i)) [
    | inl e ↦ ground (arith, e, h)
    | inr (p, e) ↦ elim (Bool-cases (same_ptr p.parent (some cur))) [
      | inl child ↦ elim (Bool-cases (p.state ==state zombie)) [
        | inl z ↦ rw (e, pass_on) (rw (child, z) (wakeup1-Unrelated cur (to_chan init) _ j changed))
        | inr z ↦ rw (e, pass_on) (rw (child, z) changed)
      ]
      | inr foreign ↦ ground (arith, e, foreign, h)
    ]
  ]
    where
      changed : Unrelated cur (get_elem? (modify ps i (λ p. record p { parent = init })) j)
      changed =
          ground (arith, h, elsewhere, get_elem?-modify ps i j (λ p. record p { parent = init }))

  -- After the loop over the entries from `i` to `i + n`, none of those below `i + n` is a child.
  pass_children-Unrelated :
      (n i j : ℕ) (ps : List Proc)
      → ((j : ℕ) → j < i → Unrelated cur (get_elem? ps j))
      → j < i + n
      → Unrelated cur (get_elem? (pass_children n cur init i ps) j)
  unfolding pass_children
  pass_children-Unrelated zero i j ps h lt = h j (omega arith)
  pass_children-Unrelated (suc n) i j ps h lt =
      pass_children-Unrelated n (i + 1) j (pass_on cur init i ps)
        (λ l ll.
          pass_on-Unrelated i l ps
            (elim (dec_lt l i) [ yes old ↦ inl (h l old) | no new ↦ inr (omega arith) ]))
        (omega arith)

length-wakeup1 : (chan : Chan) (ps : List Proc) → length (wakeup1 chan ps) ≡ length ps
unfolding wakeup1
length-wakeup1 chan [] = refl
length-wakeup1 chan (p ∷ ps) = ap suc (length-wakeup1 chan ps)

length-pass_on :
    (cur : ℕ) (init : Option ℕ) (i : ℕ) (ps : List Proc)
    → length (pass_on cur init i ps) ≡ length ps
unfolding pass_on
length-pass_on cur init i ps =
    let f : Proc → Proc = λ p. record p { parent = init } in
    ground (arith, length-modify ps i f, length-wakeup1 (to_chan init) (modify ps i f))

length-pass_children :
    (n cur : ℕ) (init : Option ℕ) (i : ℕ) (ps : List Proc)
    → length (pass_children n cur init i ps) ≡ length ps
unfolding pass_children
length-pass_children zero cur init i ps = refl
length-pass_children (suc n) cur init i ps =
    length-pass_children n cur init (i + 1) (pass_on cur init i ps) ∙ length-pass_on cur init i ps

-- What `New_exit` does under `ptable.lock`: after it the process is a zombie, and no entry of the
-- table has it as its parent, if `init` is another process.
pub leave_orphans :
    (cur : ℕ) (parent : Option ℕ) (k : Kernel)
    → same_ptr k.initproc (some cur) ≡ false
    → length k.procs ≡ 64
    → (j : ℕ) (p : Proc) → get_elem? (leave cur parent k).procs j ≡ some p
    → (same_ptr p.parent (some cur) ≡ false) × (cur ≡ j → p.state ≡ zombie)
unfolding leave
leave_orphans cur parent k elsewhere full j p e =
    let before = pass_children 64 cur k.initproc 0 (wakeup1 (to_chan parent) k.procs) in
    let r = get_elem?-modify_inv before cur j ended p e in
    let inside : j < 64 = omega (
      arith,
      get_elem?-lt before j r.1,
      length-pass_children 64 cur k.initproc 0 (wakeup1 (to_chan parent) k.procs),
      length-wakeup1 (to_chan parent) k.procs,
      full,
    ) in
    let clear =
      pass_children-Unrelated cur k.initproc elsewhere 64 0 j (wakeup1 (to_chan parent) k.procs)
        (λ l lt. absurd (omega arith)) inside in
    let clear' : same_ptr r.0.parent (some cur) ≡ false = ground (arith, clear, r.1) in
    (ground (arith, r.2, clear'), λ same. ground (arith, r.2, same))

wakeup1-threads :
    (pid : ℕ) (chan : Chan) (ps : List Proc)
    → count_if (is_thread_of pid) (wakeup1 chan ps) ≡ count_if (is_thread_of pid) ps
unfolding wakeup1
wakeup1-threads pid chan [] = refl
wakeup1-threads pid chan (p ∷ ps) = ground (arith, wakeup1-threads pid chan ps)

wake_joiners-threads :
    (pid : ℕ) (ts : List (Option ℕ)) (ps : List Proc)
    → count_if (is_thread_of pid) (wake_joiners ts ps) ≡ count_if (is_thread_of pid) ps
unfolding wake_joiners
wake_joiners-threads pid [] ps = refl
wake_joiners-threads pid (none ∷ ts) ps = wake_joiners-threads pid ts ps
wake_joiners-threads pid (some i ∷ ts) ps =
    wake_joiners-threads pid ts _ ∙ wakeup1-threads pid (to_chan (some i)) ps

-- The entry `j` is a live thread of the process.
abbrev LiveAt : ℕ → ℕ → List Proc → Type 0
LiveAt pid j ps = (p : Proc) × (get_elem? ps j ≡ some p) × (is_thread_of pid p ≡ true)

wakeup1-slot :
    (pid j : ℕ) (chan : Chan) (ps : List Proc) → LiveAt pid j ps → LiveAt pid j (wakeup1 chan ps)
wakeup1-slot pid j chan ps (p, at, live) = elim (Bool-cases (sleeps_on chan p)) [
  | inl s ↦ (
    record p { state = runnable },
    get_elem?-wakeup1 chan ps j ∙ rw (at, s) refl,
    ground (arith, live, s),
  )
  | inr s ↦ (p, get_elem?-wakeup1 chan ps j ∙ rw (at, s) refl, live)
]

wake_joiners-slot :
    (pid j : ℕ) (ts : List (Option ℕ)) (ps : List Proc)
    → LiveAt pid j ps
    → LiveAt pid j (wake_joiners ts ps)
unfolding wake_joiners
wake_joiners-slot pid j [] ps h = h
wake_joiners-slot pid j (none ∷ ts) ps h = wake_joiners-slot pid j ts ps h
wake_joiners-slot pid j (some i ∷ ts) ps h =
    wake_joiners-slot pid j ts (wakeup1 (to_chan (some i)) ps)
      (wakeup1-slot pid j (to_chan (some i)) ps h)

-- A thread that ends while others of its process live becomes a zombie: the process has one thread
-- fewer, and no file is closed and no memory given back.
pub kthread_exit_one :
    (env : Env) (cur : ℕ) (k : Kernel) (proc : Proc)
    → same_ptr k.initproc (some cur) ≡ false
    → get_elem? k.procs cur ≡ some proc
    → is_thread_of proc.pid proc ≡ true
    → threads_counter proc.pid k.procs ≢ 1
    → (k' : Kernel) × (kthread_exit env cur k ≡ some k')
      × (threads_counter proc.pid k'.procs + 1 ≡ threads_counter proc.pid k.procs)
      × (k'.files ≡ k.files)
      × (k'.freelist ≡ k.freelist)
unfolding kthread_exit threads_counter
kthread_exit_one env cur k proc other at live more =
    let woken = wake_joiners proc.sleeping_threads k.procs in
    let same = wake_joiners-threads proc.pid proc.sleeping_threads k.procs in
    let slot = wake_joiners-slot proc.pid cur proc.sleeping_threads k.procs (proc, at, live) in
    (
      record k { procs = modify woken cur ended },
      rw (other, at, kthread_exit) (rw (ne same) refl),
      ground (
        arith,
        same,
        slot.2,
        count_if-modify (is_thread_of proc.pid) woken cur ended slot.0 slot.1,
      ),
      refl,
      refl,
    )
  where
    ne :
        count_if (is_thread_of proc.pid) (wake_joiners proc.sleeping_threads k.procs)
          ≡ count_if (is_thread_of proc.pid) k.procs
        → (threads_counter proc.pid (wake_joiners proc.sleeping_threads k.procs) == 1) ≡ false
    ne same = ground (arith, more, same)
