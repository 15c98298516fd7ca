-- ===== src/Sync/Exclusion.antt =====
-- Mutual exclusion: a mutex that a thread holds is safe from every call of the other threads but a
-- signal.
use assignment.Prelude.{
  ℕ, ◌≡◌, ◌≢◌, Option, none, some, arith, ℤ, pos, negsuc, ==ℤ_iff, get_elem?, get_elem?-modify,
  Option-cases, inl, inr, find_index, find_index-some,
}
use assignment.Kernel.{Kernel, Mutex, MutexStatus, m_unused, m_locked}
use assignment.Sync.Mutex.{
  Round, returns, thread_of, is_unused, fresh_mutex, mutex_alloc, mutex_dealloc, mutex_lock,
  mutex_unlock, join, give_up, block,
}

-- The status and the owner of the mutex `m`.
abbrev pub holder_of : ℕ → Kernel → Option (MutexStatus × ℤ)
holder_of m k = elim (get_elem? k.mtable m) [ none ↦ none | some x ↦ some (x.status, x.tid) ]

-- The thread `t` holds the mutex `m`.
abbrev pub IsHeld : ℕ → ℤ → Kernel → Type 0
IsHeld m t k = holder_of m k ≡ some (m_locked, t)

-- What holds of the kernel that a call leaves, if it does not fault.
abbrev pub Ensures {ℓ} : {A : Type 0} → (Kernel → Type ℓ) → Option (A × Kernel) → Type ℓ
Ensures P none = Unit
Ensures P (some (a, k)) = P k

-- The round does not end with the mutex in the caller's hands.
abbrev pub Denied : Option (Round × Kernel) → Type 0
Denied none = Unit
Denied (some (r, k)) = r ≢ returns (pos 0)

module _ (m : ℕ) (t : ℤ) (k : Kernel) (held : IsHeld m t k) where
  pub alloc-IsHeld : IsHeld m t (mutex_alloc k).1
  unfolding mutex_alloc
  alloc-IsHeld = elim (Option-cases (find_index is_unused k.mtable)) [
    | inl e ↦ rw (e, mutex_alloc) held
    | inr (i, e) ↦
        let slot = find_index-some is_unused k.mtable i e in
        ground (arith, e, slot.1, slot.2, get_elem?-modify k.mtable i m (λ _. fresh_mutex))
  ]

  pub dealloc-IsHeld : (id : ℤ) → Ensures (IsHeld m t) (mutex_dealloc id k)
  unfolding mutex_dealloc
  dealloc-IsHeld (negsuc n) = tt
  dealloc-IsHeld (pos i) =
      ground (arith, get_elem?-modify k.mtable i m (λ x. record x { status = m_unused }))

  pub block-IsHeld : (cur : ℕ) → IsHeld m t (block cur k)
  unfolding block
  block-IsHeld cur = held

  -- The queue alone changes when a thread joins it.
  join-keeps :
      (x : Mutex) (tid : ℤ) (y : Mutex)
      → join x tid ≡ some y
      → (y.status ≡ x.status) × (y.tid ≡ x.tid)
  unfolding join
  join-keeps x tid y e = ground arith

  pub lock-IsHeld : (cur : ℕ) (id : ℤ) → Ensures (IsHeld m t) (mutex_lock cur id k)
  unfolding mutex_lock
  lock-IsHeld cur (negsuc n) = elim (Option-cases (thread_of cur k)) [
    | inl e ↦ rw (e, mutex_lock) tt
    | inr (tid, e) ↦ rw (e, mutex_lock) tt
  ]
  lock-IsHeld cur (pos i) = elim (Option-cases (thread_of cur k)) [
    | inl e ↦ rw (e, mutex_lock) tt
    | inr (tid, e) ↦ elim (Option-cases (get_elem? k.mtable i)) [
      | inl a ↦ rw (e, a, mutex_lock) tt
      | inr (x, a) ↦ elim (Option-cases (join x tid)) [
        | inl j ↦ ground (
          arith,
          e,
          a,
          j,
          get_elem?-modify k.mtable i m (λ x. record x { status = m_locked; tid = tid }),
        )
        | inr (y, j) ↦ ground (
          arith,
          e,
          a,
          j,
          join-keeps x tid y j,
          get_elem?-modify k.mtable i m (λ x. record x { status = m_locked; tid = tid }),
          get_elem?-modify k.mtable i m (λ _. y),
        )
      ]
    ]
  ]

  pub unlock-IsHeld :
      (cur : ℕ) (id : ℤ) → thread_of cur k ≢ some t → Ensures (IsHeld m t) (mutex_unlock cur id k)
  unfolding mutex_unlock
  unlock-IsHeld cur (negsuc n) other = elim (Option-cases (thread_of cur k)) [
    | inl e ↦ rw (e, mutex_unlock) tt
    | inr (tid, e) ↦ rw (e, mutex_unlock) tt
  ]
  unlock-IsHeld cur (pos i) other = elim (Option-cases (thread_of cur k)) [
    | inl e ↦ rw (e, mutex_unlock) tt
    | inr (tid, e) ↦ elim (Option-cases (get_elem? k.mtable i)) [
      | inl a ↦ rw (e, a, mutex_unlock) tt
      | inr (x, a) ↦ elim (Option-cases (give_up x)) [
        | inl j ↦ ground (arith, e, a, j)
        | inr (y, j) ↦
            ground
              (arith, e, a, j, other, ==ℤ_iff tid x.tid, get_elem?-modify k.mtable i m (λ _. y.1))
      ]
    ]
  ]

  -- Nobody, not even the holder, gets a mutex that is held.
  pub lock-Denied : (cur : ℕ) → Denied (mutex_lock cur (pos m) k)
  unfolding mutex_lock
  lock-Denied cur = elim (Option-cases (thread_of cur k)) [
    | inl e ↦ rw (e, mutex_lock) tt
    | inr (tid, e) ↦ elim (Option-cases (get_elem? k.mtable m)) [
      | inl a ↦ rw (e, a, mutex_lock) tt
      | inr (x, a) ↦ elim (Option-cases (join x tid)) [
        | inl j ↦ ground (arith, e, a, j)
        | inr (y, j) ↦ ground (arith, e, a, j)
      ]
    ]
  ]
