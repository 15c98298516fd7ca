-- ===== src/Sync/Handoff.antt =====
-- How a mutex passes from its holder to the thread that waits first, and whom it wakes.
use assignment.Prelude.{
  ℕ, suc, ◌+◌, ◌<◌, ◌≡◌, ◌≢◌, ◌⊎◌, inl, inr, ap, ◌∙◌, Bool, List, ◌&&◌, Option-cases, find_index,
  find_index-some, find_index-none, find_index-before, get_elem?-modify_ne, refl, true, false, [],
  ◌∷◌, ◌++◌, some, arith, ℤ, pos, ◌==ℤ◌, ==ℤ_iff, ==ℤ_refl, get_elem?, modify, get_elem?-modify,
  get_elem?-modify_self,
}
use assignment.Kernel.{
  Kernel, Proc, blocking, runnable, ◌==state◌, Mutex, m_unlocked, m_locked, max_threads,
}
use assignment.Proc.TableLaws.{KeepsOthers}
use assignment.Sync.Queue.{head, drop_head, is_in_queue}
use assignment.Sync.Fifo.{IsRing, waiting, enqueue_back, drop_front}
use assignment.Sync.Mutex.{returns, thread_of, mutex_lock, mutex_unlock, wake_tid, join, give_up}
use assignment.Sync.Exclusion.{IsHeld}

-- With room left, a thread that `isInQueue` does not find joins at the back of the queue. The
-- status and the owner of the mutex stay.
pub join_back :
    (x : Mutex) (n : ℕ) (tid : ℤ)
    → IsRing x.queue n
    → n < max_threads
    → is_in_queue x.queue tid ≡ some false
    → (y : Mutex) × (join x tid ≡ some y)
      × IsRing y.queue (n + 1)
      × (waiting y.queue (n + 1) ≡ waiting x.queue n ++ (tid ∷ []))
      × (y.status ≡ x.status)
      × (y.tid ≡ x.tid)
unfolding join
join_back x n tid v lt absent =
    let r = enqueue_back x.queue n tid v lt in
    (record x { queue = r.0 }, rw (absent, r.1, join) refl, r.2, r.3, refl, refl)

pub join_again : (x : Mutex) (tid : ℤ) → is_in_queue x.queue tid ≡ some true → join x tid ≡ some x
unfolding join
join_again x tid present = rw (present, join) refl

pub give_up-real :
    (x : Mutex) (w : ℤ)
    → head x.queue ≡ some w
    → (w ==ℤ pos 0) ≡ false
    → give_up x ≡ some (w, record { tid = pos 0; status = m_unlocked; queue = drop_head x.queue })
unfolding give_up
give_up-real x w h ne = rw (h, ne, give_up) refl

-- A BLOCKING process of the thread `w`.
abbrev pub IsBlockedOf : ℤ → Proc → Type 0
IsBlockedOf w p = (p.state ≡ blocking) × (p.thread_id ≡ w)

-- The first BLOCKING process of the thread `w` has become RUNNABLE, and no other process has
-- changed; or there is none, and nothing has changed.
abbrev pub IsWoken : ℤ → List Proc → List Proc → Type 0
IsWoken w ps qs =
    ((i : ℕ) × (p : Proc) × (get_elem? ps i ≡ some p)
      × IsBlockedOf w p
      × ((j : ℕ) (q : Proc) → j < i → get_elem? ps j ≡ some q → ¬ IsBlockedOf w q)
      × (get_elem? qs i ≡ some (record p { state = runnable }))
      × KeepsOthers i ps qs)
    ⊎ (((j : ℕ) (q : Proc) → get_elem? ps j ≡ some q → ¬ IsBlockedOf w q) × (qs ≡ ps))

is_blocked_of : ℤ → Proc → Bool
is_blocked_of w p = p.state ==state blocking && p.thread_id ==ℤ w

blocked_sound : (w : ℤ) (p : Proc) → is_blocked_of w p ≡ true → IsBlockedOf w p
unfolding is_blocked_of
blocked_sound w p e = (ground (arith, e), (==ℤ_iff p.thread_id w).0 (ground (arith, e)))

blocked_complete : (w : ℤ) (p : Proc) → is_blocked_of w p ≡ false → ¬ IsBlockedOf w p
unfolding is_blocked_of
blocked_complete w p e (b, own) = ground (arith, e, b, (==ℤ_iff p.thread_id w).1 own)

wake_tid-IsWoken : (w : ℤ) (ps : List Proc) → IsWoken w ps (wake_tid w ps)
unfolding wake_tid is_blocked_of
wake_tid-IsWoken w ps = elim (Option-cases (find_index (is_blocked_of w) ps)) [
  | inl e ↦ inr (
    λ j q at. blocked_complete w q (find_index-none (is_blocked_of w) ps j q e at),
    rw (e, wake_tid) refl,
  )
  | inr (i, e) ↦
      let f = find_index-some (is_blocked_of w) ps i e in
      let wake : Proc → Proc = λ p. record p { state = runnable } in
      let done : wake_tid w ps ≡ modify ps i wake = rw (e, wake_tid) refl in
      inl (
        i,
        f.0,
        f.1,
        blocked_sound w f.0 f.2,
        λ j q lt at. blocked_complete w q (find_index-before (is_blocked_of w) ps i j q e lt at),
        ap (λ l. get_elem? l i) done ∙ get_elem?-modify_self ps i wake f.1,
        λ j ne. ap (λ l. get_elem? l j) done ∙ get_elem?-modify_ne ps i j wake ne,
      )
]

module _ (cur m : ℕ) (t : ℤ) (k : Kernel) (x : Mutex) (caller : thread_of cur k ≡ some t)
    (slot : get_elem? k.mtable m ≡ some x) where
  -- A lock round on a mutex that is free takes it.
  pub lock_free :
      x.status ≡ m_unlocked
      → (k' : Kernel) × (mutex_lock cur (pos m) k ≡ some (returns (pos 0), k')) × IsHeld m t k'
  unfolding mutex_lock
  lock_free free = (
    record k { mtable = modify k.mtable m (λ x. record x { status = m_locked; tid = t }) },
    ground (arith, caller, slot, free),
    ground
        (arith, slot, get_elem?-modify k.mtable m m (λ x. record x { status = m_locked; tid = t })),
  )

  -- The unlock of the holder, by the functions of the code.
  pub unlock_gives :
      (n : ℕ)
      → x.status ≡ m_locked
      → x.tid ≡ t
      → IsRing x.queue (suc n)
      → head x.queue ≢ some (pos 0)
      → (w : ℤ) × (y : Mutex) × (waiting x.queue (suc n) ≡ w ∷ waiting y.queue n)
        × (y.status ≡ m_unlocked)
        × IsRing y.queue n
        × (mutex_unlock cur (pos m) k
            ≡ some (
              pos 0,
              record k { mtable = modify k.mtable m (λ _. y); procs = wake_tid w k.procs },
            ))
  unfolding mutex_unlock
  unlock_gives n locked own ring real =
      let r = drop_front x.queue n ring in
      let ne : (r.0 ==ℤ pos 0) ≡ false = ground (arith, real, r.1, ==ℤ_iff r.0 (pos 0)) in
      (
        r.0,
        record { tid = pos 0; status = m_unlocked; queue = drop_head x.queue },
        r.2,
        refl,
        r.3,
        ground (arith, caller, slot, locked, own, ==ℤ_refl t, give_up-real x r.0 r.1 ne),
      )

  -- If a thread waits and the entry at the start of the queue is not 0, the holder's unlock frees the mutex,
  -- takes the thread that has waited longest off the queue and makes its first BLOCKING process
  -- RUNNABLE, if it has one; no other process changes, and the threads behind keep their order.
  pub unlock_hands_over :
      (n : ℕ)
      → x.status ≡ m_locked
      → x.tid ≡ t
      → IsRing x.queue (suc n)
      → head x.queue ≢ some (pos 0)
      → (w : ℤ) × (y : Mutex) × (procs : List Proc) × (waiting x.queue (suc n)
          ≡ w ∷ waiting y.queue n)
        × (y.status ≡ m_unlocked)
        × IsRing y.queue n
        × IsWoken w k.procs procs
        × (mutex_unlock cur (pos m) k
            ≡ some (pos 0, record k { mtable = modify k.mtable m (λ _. y); procs = procs }))
  unlock_hands_over n locked own ring real =
      let r = unlock_gives n locked own ring real in
      (r.0, r.1, wake_tid r.0 k.procs, r.2, r.3, r.4, wake_tid-IsWoken r.0 k.procs, r.5)

  -- If nobody waits and the entry at the start is clear, the unlock frees the mutex alone.
  pub unlock_quiet :
      x.status ≡ m_locked
      → x.tid ≡ t
      → head x.queue ≡ some (pos 0)
      → mutex_unlock cur (pos m) k
        ≡ some (
          pos 0,
          record k {
            mtable = modify k.mtable m (λ _. record x { tid = pos 0; status = m_unlocked });
            procs = wake_tid (pos 0) k.procs;
          },
        )
  unfolding mutex_unlock give_up
  unlock_quiet locked own clear = ground (arith, caller, slot, locked, own, clear, ==ℤ_refl t)
