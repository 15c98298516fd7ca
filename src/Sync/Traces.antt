-- ===== src/Sync/Traces.antt =====
-- Mutual exclusion over any run of calls, and what a signal does to it.
use assignment.Prelude.{
  ℕ, ◌≡◌, ◌≢◌, refl, ◌∙◌, sym, subst, ◌&&◌, List, [], ◌∷◌, Option, none, some, arith, ℤ, pos, ◌==ℤ◌,
  modify, get_elem?-modify, Option-cases, inl, inr, find_index,
}
use assignment.Kernel.{Kernel, Proc, ProcState, runnable, blocking, ◌==state◌, Cond, at, modify_at}
use assignment.Sync.Queue.{enqueue}
use assignment.Sync.Mutex.{
  thread_of, mutex_alloc, mutex_dealloc, mutex_lock, mutex_unlock, wake_tid, block, give_up,
}
use assignment.Sync.Cond.{cond_alloc, cond_dealloc, cond_wait}
use assignment.Sync.Calls.{
  Call, allocs, deallocs, locks, unlocks, blocks_now, allocs_cond, deallocs_cond, waits, signals,
  step, run, state_of,
}
use assignment.Sync.Exclusion.{
  IsHeld, Ensures, alloc-IsHeld, dealloc-IsHeld, lock-IsHeld, unlock-IsHeld, block-IsHeld, Denied,
  lock-Denied,
}

module _ (j : ℕ) (k : Kernel) where
  -- The thread in the slot `j` keeps its id.
  abbrev pub SameThread : Kernel → Type 0
  SameThread k' = thread_of j k' ≡ thread_of j k

  restate-SameThread :
      (i : ℕ) (s : ProcState)
      → thread_of j (record k { procs = modify k.procs i (λ p. record p { state = s }) })
        ≡ thread_of j k
  restate-SameThread i s =
      ground (arith, get_elem?-modify k.procs i j (λ p. record p { state = s }))

  pub wake-SameThread : (tid : ℤ) → SameThread (record k { procs = wake_tid tid k.procs })
  unfolding wake_tid
  wake-SameThread tid =
      elim (Option-cases
        (find_index (λ (p : Proc). p.state ==state blocking && p.thread_id ==ℤ tid) k.procs)) [
          | inl e ↦ rw (e, wake_tid) refl
          | inr (i, e) ↦ rw (e, wake_tid) (restate-SameThread i runnable)
        ]

  alloc-SameThread : SameThread (mutex_alloc k).1
  unfolding mutex_alloc
  alloc-SameThread = ground arith

  dealloc-SameThread : (id : ℤ) → Ensures SameThread (mutex_dealloc id k)
  unfolding mutex_dealloc
  dealloc-SameThread id = ground arith

  lock-SameThread : (cur : ℕ) (id : ℤ) → Ensures SameThread (mutex_lock cur id k)
  unfolding mutex_lock
  lock-SameThread cur id = ground arith

  unlock-SameThread : (cur : ℕ) (id : ℤ) → Ensures SameThread (mutex_unlock cur id k)
  unfolding mutex_unlock
  unlock-SameThread cur id = elim (Option-cases (at k.mtable id)) [
    | inl a ↦ ground (arith, a)
    | inr (x, a) ↦ elim (Option-cases (give_up x)) [
      | inl g ↦ ground (arith, a, g)
      | inr (w, g) ↦ ground (arith, a, g, wake-SameThread w.0)
    ]
  ]

  block-SameThread : (cur : ℕ) → SameThread (block cur k)
  unfolding block
  block-SameThread cur = restate-SameThread cur blocking

  cond_alloc-SameThread : SameThread (cond_alloc k).1
  unfolding cond_alloc
  cond_alloc-SameThread = ground arith

  cond_dealloc-SameThread : (id : ℤ) → Ensures SameThread (cond_dealloc id k)
  unfolding cond_dealloc
  cond_dealloc-SameThread id = ground arith

-- `kthread_cond_wait` does to the mutexes and the threads what the unlock inside it does.
wait-Ensures :
    (P : Kernel → Type 0) (cur : ℕ) (cond_id mutex_id : ℤ) (k : Kernel)
    → P k
    → ((conds : List Cond) → Ensures P (mutex_unlock cur mutex_id (record k { ctable = conds })))
    → Ensures P (cond_wait cur cond_id mutex_id k)
unfolding cond_wait
wait-Ensures P cur cond_id mutex_id k here inside = elim (Option-cases (thread_of cur k)) [
  | inl e ↦ rw (e, cond_wait) tt
  | inr (tid, e) ↦ elim (Option-cases (at k.ctable cond_id)) [
    | inl a ↦ rw (e, a, cond_wait) tt
    | inr (c, a) ↦ elim (Option-cases (enqueue c.queue tid)) [
      | inl q ↦ ground (arith, e, a, q, here)
      | inr (q, eq) ↦
          let conds : List Cond =
            modify_at k.ctable cond_id (λ c. record c { queue = q; waiting_mutex_id = mutex_id }) in
          elim (Option-cases (mutex_unlock cur mutex_id (record k { ctable = conds }))) [
            | inl u ↦ ground (arith, e, a, eq, u, here)
            | inr (r, u) ↦ ground (arith, e, a, eq, u, here, inside conds)
          ]
    ]
  ]
]

cond_alloc-IsHeld : (m : ℕ) (t : ℤ) (k : Kernel) → IsHeld m t k → IsHeld m t (cond_alloc k).1
unfolding cond_alloc
cond_alloc-IsHeld m t k held = ground arith

cond_dealloc-IsHeld :
    (m : ℕ) (t : ℤ) (k : Kernel)
    → IsHeld m t k
    → (id : ℤ) → Ensures (IsHeld m t) (cond_dealloc id k)
unfolding cond_dealloc
cond_dealloc-IsHeld m t k held id = ground arith

-- What holds after a step, if it does not fault.
abbrev pub After : (Kernel → Type 0) → Option Kernel → Type 0
After P none = Unit
After P (some k) = P k

After-state :
    {A : Type 0} (P : Kernel → Type 0) (r : Option (A × Kernel))
    → Ensures P r
    → After P (state_of r)
After-state P none h = tt
After-state P (some (a, k)) h = h

-- A signal may hand a mutex to the thread that it wakes.
abbrev pub IsNoSignal : Call → Type 0
IsNoSignal (signals id) = ⊥
IsNoSignal _ = Unit

-- No call of the run is by a thread with the id `t`, and none is a signal.
abbrev pub ByOthers : ℤ → Kernel → List (ℕ × Call) → Type 0
ByOthers t k [] = Unit
ByOthers t k ((cur, c) ∷ cs) = (thread_of cur k ≢ some t) × IsNoSignal c × ByOthers t k cs

step-IsHeld :
    (m : ℕ) (t : ℤ) (cur : ℕ) (c : Call) (k : Kernel)
    → IsHeld m t k
    → thread_of cur k ≢ some t
    → IsNoSignal c
    → After (IsHeld m t) (step cur c k)
unfolding step
step-IsHeld m t cur allocs k held other quiet = alloc-IsHeld m t k held
step-IsHeld m t cur (deallocs id) k held other quiet =
    After-state (IsHeld m t) _ (dealloc-IsHeld m t k held id)
step-IsHeld m t cur (locks id) k held other quiet =
    After-state (IsHeld m t) _ (lock-IsHeld m t k held cur id)
step-IsHeld m t cur (unlocks id) k held other quiet =
    After-state (IsHeld m t) _ (unlock-IsHeld m t k held cur id other)
step-IsHeld m t cur blocks_now k held other quiet = block-IsHeld m t k held cur
step-IsHeld m t cur allocs_cond k held other quiet = cond_alloc-IsHeld m t k held
step-IsHeld m t cur (deallocs_cond id) k held other quiet =
    After-state (IsHeld m t) _ (cond_dealloc-IsHeld m t k held id)
step-IsHeld m t cur (waits c_id m_id) k held other quiet = After-state (IsHeld m t) _ (
    wait-Ensures (IsHeld m t) cur c_id m_id k held
      (λ conds. unlock-IsHeld m t (record k { ctable = conds }) held cur m_id other))
step-IsHeld m t cur (signals id) k held other quiet = absurd quiet

pub step-SameThread :
    (j cur : ℕ) (c : Call) (k : Kernel) → IsNoSignal c → After (SameThread j k) (step cur c k)
unfolding step
step-SameThread j cur allocs k quiet = alloc-SameThread j k
step-SameThread j cur (deallocs id) k quiet =
    After-state (SameThread j k) _ (dealloc-SameThread j k id)
step-SameThread j cur (locks id) k quiet =
    After-state (SameThread j k) _ (lock-SameThread j k cur id)
step-SameThread j cur (unlocks id) k quiet =
    After-state (SameThread j k) _ (unlock-SameThread j k cur id)
step-SameThread j cur blocks_now k quiet = block-SameThread j k cur
step-SameThread j cur allocs_cond k quiet = cond_alloc-SameThread j k
step-SameThread j cur (deallocs_cond id) k quiet =
    After-state (SameThread j k) _ (cond_dealloc-SameThread j k id)
step-SameThread j cur (waits c_id m_id) k quiet = After-state (SameThread j k) _ (
    wait-Ensures (SameThread j k) cur c_id m_id k refl
      (λ conds. unlock-SameThread j (record k { ctable = conds }) cur m_id))
step-SameThread j cur (signals id) k quiet = absurd quiet

ByOthers-step :
    (t : ℤ) (k k' : Kernel) (cs : List (ℕ × Call))
    → ((j : ℕ) → SameThread j k k')
    → ByOthers t k cs
    → ByOthers t k' cs
ByOthers-step t k k' [] same h = tt
ByOthers-step t k k' ((cur, c) ∷ cs) same h =
    (λ e. h.0 (sym (same cur) ∙ e), h.1, ByOthers-step t k k' cs same h.2)

-- If the thread id `t` holds a mutex, then after any run of calls by threads with another id, in which no
-- condition is signalled, `t` still holds the mutex, and a lock round on it by any thread is
-- turned away. The main threads of all processes have the one id -1: where `t` is -1, the run has
-- calls of no main thread.
pub mutual_exclusion :
    (m : ℕ) (t : ℤ) (cs : List (ℕ × Call)) (k k' : Kernel)
    → IsHeld m t k
    → ByOthers t k cs
    → run cs k ≡ some k'
    → IsHeld m t k' × ((cur : ℕ) → Denied (mutex_lock cur (pos m) k'))
unfolding run
mutual_exclusion m t [] k k' held others e =
    let e' : k ≡ k' = ground (arith, e) in
    subst (λ s. IsHeld m t s × ((cur : ℕ) → Denied (mutex_lock cur (pos m) s))) e'
      (held, lock-Denied m t k held)
mutual_exclusion m t ((cur, c) ∷ cs) k k' held others e = elim (Option-cases (step cur c k)) [
  | inl s ↦ absurd (ground (arith, s, e))
  | inr (k1, s) ↦
      mutual_exclusion m t cs k1 k'
        (let r = step-IsHeld m t cur c k held others.0 others.1 in rw s at r)
        (ByOthers-step t k k1 cs (λ j. let r = step-SameThread j cur c k others.1 in rw s at r)
          others.2)
        (ground (arith, s, e))
]
