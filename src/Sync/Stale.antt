-- ===== src/Sync/Stale.antt =====
-- A mutex (proc.c) over 256 contended rounds of lock and unlock, and the unlock after them.
use assignment.Prelude.{
  ℕ, zero, suc, ◌+◌, ◌<◌, ◌≡◌, ◌≢◌, refl, ◌∙◌, subst, List, [], ◌∷◌, some, arith, ℤ, pos, minus_one,
  ==ℤ_refl, get_elem?, modify, get_elem?-modify_self,
}
use assignment.Kernel.{Kernel, Mutex, m_unlocked, m_locked, TidQueue}
use assignment.Sync.Queue.{empty, drop_head}
use assignment.Sync.Mutex.{thread_of, mutex_lock, mutex_unlock, wake_tid, block, join, give_up}
use assignment.Sync.Calls.{Call, locks, unlocks, blocks_now, step, run}
use assignment.Sync.Handoff.{give_up-real}
use assignment.Sync.Traces.{After, SameThread, IsNoSignal, step-SameThread}
use assignment.Sync.Used.{
  IsUsed, one_waiting, head_used, drop_head-IsUsed, empty-IsUsed, not_zero, join_used, head_left,
  count_left,
}

-- A round in which the thread of the process `j` asks for the mutex that the thread of `cur` holds and
-- joins its queue, the holder gives it up, and takes it again before the other.
abbrev pub contended : ℕ → ℕ → ℕ → ℕ → List (ℕ × Call)
contended cur j m zero = (cur, unlocks (pos m)) ∷ []
contended cur j m (suc n) =
    (j, locks (pos m))
    ∷ (j, blocks_now)
    ∷ (cur, unlocks (pos m))
    ∷ (cur, locks (pos m))
    ∷ contended cur j m n

step_blocks : (j : ℕ) (k : Kernel) → step j blocks_now k ≡ some (block j k)
unfolding step
step_blocks j k = refl

block-slot :
    (j : ℕ) (k : Kernel) (m : ℕ) (x : Mutex)
    → get_elem? k.mtable m ≡ some x
    → get_elem? (block j k).mtable m ≡ some x
unfolding block
block-slot j k m x at = at

run_nil : (k : Kernel) → run [] k ≡ some k
unfolding run
run_nil k = refl

module _ (cur m : ℕ) (t : ℤ) (k : Kernel) (x : Mutex) (caller : thread_of cur k ≡ some t)
    (slot : get_elem? k.mtable m ≡ some x) where
  step_joins :
      (y : Mutex)
      → x.status ≡ m_locked
      → join x t ≡ some y
      → step cur (locks (pos m)) k ≡ some (record k { mtable = modify k.mtable m (λ _. y) })
  unfolding step mutex_lock
  step_joins y locked e = ground (arith, caller, slot, locked, e)

  step_gives :
      (w : ℤ) (y : Mutex)
      → x.status ≡ m_locked
      → x.tid ≡ t
      → give_up x ≡ some (w, y)
      → step cur (unlocks (pos m)) k
        ≡ some (record k { mtable = modify k.mtable m (λ _. y); procs = wake_tid w k.procs })
  unfolding step mutex_unlock
  step_gives w y locked own e = ground (arith, caller, slot, locked, own, ==ℤ_refl t, e)

  step_takes :
      x.status ≡ m_unlocked
      → step cur (locks (pos m)) k
        ≡ some
            (record k { mtable = modify k.mtable m (λ x. record x { status = m_locked; tid = t }) })
  unfolding step mutex_lock
  step_takes free = ground (arith, caller, slot, free)

same_after :
    (a b : ℕ) (c : Call) (s : ℤ) (k k' : Kernel)
    → IsNoSignal c
    → step b c k ≡ some k'
    → thread_of a k ≡ some s
    → thread_of a k' ≡ some s
same_after a b c s k k' quiet e h =
    subst (After (SameThread a k)) e (step-SameThread a b c k quiet) ∙ h

run_on :
    (cur : ℕ) (c : Call) (cs : List (ℕ × Call)) (k k' : Kernel)
    → step cur c k ≡ some k'
    → run ((cur, c) ∷ cs) k ≡ run cs k'
unfolding run
run_on cur c cs k k' e = rw (e, run) refl

-- The thread `t` of `cur` holds the mutex, `w` is that of `j`, and the queue is used up to `i`.
record Ready (cur j m : ℕ) (t w : ℤ) (i : ℕ) (k : Kernel) : Type 0 where
  caller : thread_of cur k ≡ some t
  other : thread_of j k ≡ some w
  q : TidQueue
  slot : get_elem? k.mtable m ≡ some (record { tid = t; status = m_locked; queue = q })
  used : IsUsed w i q

module _ (cur j m : ℕ) (t w : ℤ) (real : w ≢ pos 0) where
  round_lem :
      (i n : ℕ) (k : Kernel)
      → i < 256
      → Ready cur j m t w i k
      → (k' : Kernel) × (run (contended cur j m (suc n)) k ≡ run (contended cur j m n) k')
        × Ready cur j m t w (suc i) k'
  round_lem i n k lt r =
      let q1 = one_waiting w real i lt r.q r.used in
      let x1 : Mutex = record { tid = t; status = m_locked; queue = q1 } in
      let x2 : Mutex = record { tid = pos 0; status = m_unlocked; queue = drop_head q1 } in
      let take : Mutex → Mutex = λ x. record x { status = m_locked; tid = t } in
      let k1 : Kernel = record k { mtable = modify k.mtable m (λ _. x1) } in
      let k2 = block j k1 in
      let k3 : Kernel = record k2 {
        mtable = modify k2.mtable m (λ _. x2);
        procs = wake_tid w k2.procs;
      } in
      let k4 : Kernel = record k3 { mtable = modify k3.mtable m take } in
      let at1 = get_elem?-modify_self k.mtable m (λ _. x1) r.slot in
      let at2 = block-slot j k1 m x1 at1 in
      let at3 = get_elem?-modify_self k2.mtable m (λ _. x2) at2 in
      let e1 = step_joins j m w k _ r.other r.slot x1 refl (join_used w real i lt r.q r.used t) in
      let e2 : step j blocks_now k1 ≡ some k2 = step_blocks j k1 in
      let c1 = same_after cur j (locks (pos m)) t k k1 tt e1 r.caller in
      let c2 = same_after cur j blocks_now t k1 k2 tt e2 c1 in
      let e3 =
        step_gives cur m t k2 x1 c2 at2 w x2 refl refl
          (give_up-real x1 w (head_used w real i lt r.q r.used) (not_zero w real)) in
      let c3 = same_after cur cur (unlocks (pos m)) t k2 k3 tt e3 c2 in
      let e4 = step_takes cur m t k3 x2 c3 at3 refl in
      let o1 = same_after j j (locks (pos m)) w k k1 tt e1 r.other in
      let o2 = same_after j j blocks_now w k1 k2 tt e2 o1 in
      let o3 = same_after j cur (unlocks (pos m)) w k2 k3 tt e3 o2 in
      (
        k4,
        run_on j (locks (pos m)) _ k k1 e1
            ∙ run_on j blocks_now _ k1 k2 e2
            ∙ run_on cur (unlocks (pos m)) _ k2 k3 e3
            ∙ run_on cur (locks (pos m)) _ k3 k4 e4,
        record {
          caller = same_after cur cur (locks (pos m)) t k3 k4 tt e4 c3;
          other = same_after j cur (locks (pos m)) w k3 k4 tt e4 o3;
          q = drop_head q1;
          slot = get_elem?-modify_self k3.mtable m take at3;
          used = drop_head-IsUsed w real i lt r.q r.used;
        },
      )

  rounds_lem :
      (n i : ℕ) (k : Kernel)
      → i + n ≡ 256
      → Ready cur j m t w i k
      → (k' : Kernel) × (run (contended cur j m n) k ≡ run (contended cur j m 0) k')
        × Ready cur j m t w 256 k'
  rounds_lem zero i k e r =
      let same : i ≡ 256 = omega (arith, e) in (k, refl, subst (λ n. Ready cur j m t w n k) same r)
  rounds_lem (suc n) i k e r =
      let (k1, e1, r1) = round_lem i n k (omega (arith, e)) r in
      let (k2, e2, r2) = rounds_lem n (suc i) k1 (omega (arith, e)) r1 in (k2, e1 ∙ e2, r2)

  -- A thread holds a mutex whose queue is as it was allocated. Another thread, whose id is not 0, asks for it
  -- and blocks, then the holder unlocks it and takes it again, and this 256 times. All these calls
  -- return, and the next unlock, with nobody in the queue, takes the entry that the first round has
  -- left in the ring for a waiting thread: the mutex is free, and its count is -1.
  pub unlock_after_rounds :
      (k : Kernel)
      → thread_of cur k ≡ some t
      → thread_of j k ≡ some w
      → get_elem? k.mtable m ≡ some (record { tid = t; status = m_locked; queue = empty })
      → (k' : Kernel) × (y : Mutex) × (run (contended cur j m 256) k ≡ some k')
        × (get_elem? k'.mtable m ≡ some y)
        × (y.status ≡ m_unlocked)
        × (y.queue.count ≡ minus_one)
  unlock_after_rounds k caller other slot =
      let (k1, e, r) = rounds_lem 256 0 k refl (record {
        caller = caller;
        other = other;
        q = empty;
        slot = slot;
        used = empty-IsUsed w;
      }) in
      let x : Mutex = record { tid = t; status = m_locked; queue = r.q } in
      let y : Mutex = record { tid = pos 0; status = m_unlocked; queue = drop_head r.q } in
      let k2 : Kernel = record k1 {
        mtable = modify k1.mtable m (λ _. y);
        procs = wake_tid w k1.procs;
      } in
      let last =
        step_gives cur m t k1 x r.caller r.slot w y refl refl
          (give_up-real x w (head_left w r.q r.used) (not_zero w real)) in
      (
        k2,
        y,
        e ∙ run_on cur (unlocks (pos m)) [] k1 k2 last ∙ run_nil k2,
        get_elem?-modify_self k1.mtable m (λ _. y) r.slot,
        refl,
        count_left r.q r.used.counted,
      )
