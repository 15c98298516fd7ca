-- ===== src/Uthread/Policy.antt =====
-- What the two scheduling policies promise: the round robin visits the live threads in turn, and
-- the priority policy picks the highest priority that has threads, in turn within it.
use assignment.Prelude.{
  ℕ, zero, suc, ◌+◌, ◌<◌, ◌≡◌, refl, ◌⊎◌, inl, inr, Bool, true, List, Option, some, arith, ℤ, pos,
  minus_one, ◌==◌, get_elem?, modify, length, get_elem?_of_lt, get_elem?-lt, dec_lt, count_if,
  count_if-find, find_index-some, Bool-cases,
}
use assignment.Uthread.Ring.{max_uthreads, IsIndex, after, passes, Nearest, scan-Nearest}
use assignment.Uthread.Sched.{
  Uthread, Sched, priorities, is_live, in_priority, get_next_round_robin, number_in_priority,
  next_in_priority, next_from, get_next_pb,
}

-- The arrays have their lengths, and the index variables name slots or are -1.
pub record IsShaped (s : Sched) : Type 0 where
  pub threads_length : length s.threads ≡ max_uthreads
  pub pb_length : length s.pb_rr_indexes ≡ priorities
  pub pb_range : (p : ℕ) (last : ℤ) → get_elem? s.pb_rr_indexes p ≡ some last → IsIndex last
  pub rr_range : IsIndex s.rr_index

-- A slot that passes a test, from a nonzero count.
passes_of_count :
    (test : Uthread → Bool) (ts : List Uthread)
    → 0 < count_if test ts
    → (j : ℕ) × (j < length ts) × (passes test ts j ≡ true)
passes_of_count test ts h =
    let found = count_if-find test ts h in
    let slot = find_index-some test ts found.0 found.1 in
    (found.0, get_elem?-lt ts found.0 slot.1, ground (arith, slot.1, slot.2))

-- `i` is the slot that the priority policy must pick, and `p` its priority.
pub record Picks (s : Sched) (p i : ℕ) : Type 0 where
  pub in_range : p < priorities
  pub highest : (q : ℕ) → q < p → number_in_priority s.threads q ≡ 0
  pub last : ℤ
  pub indexed : get_elem? s.pb_rr_indexes p ≡ some last
  pub nearest : Nearest (in_priority p) s.threads (after last) i

abbrev pub picked : Sched → ℕ → ℕ → Sched
picked s p i = record s { pb_rr_indexes = modify s.pb_rr_indexes p (λ _. pos i) }

next_in_priority_lem :
    (s : Sched) (p : ℕ)
    → IsShaped s
    → p < priorities
    → 0 < number_in_priority s.threads p
    → ((q : ℕ) → q < p → number_in_priority s.threads q ≡ 0)
    → (i : ℕ) × Picks s p i × (next_in_priority s p ≡ some (pos i, picked s p i))
unfolding next_in_priority number_in_priority
next_in_priority_lem s p v lt some_there none_higher =
    let at = get_elem?_of_lt s.pb_rr_indexes p (omega (arith, v.pb_length)) in
    let slot = passes_of_count (in_priority p) s.threads some_there in
    let r =
      scan-Nearest (in_priority p) s.threads at.0 slot.0 (v.pb_range p at.0 at.1)
        (omega (arith, slot.1, v.threads_length)) slot.2 in
    (
      r.0,
      record { in_range = lt; highest = none_higher; last = at.0; indexed = at.1; nearest = r.2 },
      rw (at.1, r.1, next_in_priority) refl,
    )

-- Nothing of the loop over the priorities is left out: either none of them has threads, or the
-- first that has is served.
abbrev pub PbResult : Sched → Option (ℤ × Sched) → Type 0
PbResult s r =
    (((q : ℕ) → q < priorities → number_in_priority s.threads q ≡ 0) × (r ≡ some (minus_one, s)))
    ⊎ ((p i : ℕ) × Picks s p i × (r ≡ some (pos i, picked s p i)))

next_from_lem :
    (n p : ℕ) (s : Sched)
    → IsShaped s
    → p + n ≡ priorities
    → ((q : ℕ) → q < p → number_in_priority s.threads q ≡ 0)
    → PbResult s (next_from n p s)
unfolding next_from
next_from_lem zero p s v e h = inl (λ q lt. h q (omega arith), refl)
next_from_lem (suc n) p s v e h = elim (Bool-cases (number_in_priority s.threads p == 0)) [
  | inl q ↦ rw q (next_from_lem n (p + 1) s v (omega arith) (below q))
  | inr q ↦
      rw q (
        let r = next_in_priority_lem s p v (omega arith) (ground arith) h in inr (p, r.0, r.1, r.2))
]
  where
    below :
        (number_in_priority s.threads p == 0) ≡ true
        → (k : ℕ) → k < p + 1
        → number_in_priority s.threads k ≡ 0
    below q k lt = elim (dec_lt k p) [
      | yes old ↦ h k old
      | no new ↦ let e : k ≡ p = omega arith in rw e (ground arith)
    ]

-- On tables of their sizes `getNextPB` returns. It returns -1, with nothing changed, exactly when no thread has a
-- priority from 0 to 9; otherwise it returns the slot of a thread whose priority is the highest
-- with threads, the first one in turn after the slot that last ran at that priority, and it moves
-- the index of that priority alone to the slot.
pub get_next_pb_picks : (s : Sched) → IsShaped s → PbResult s (get_next_pb s)
unfolding get_next_pb
get_next_pb_picks s v = next_from_lem priorities 0 s v refl (λ q lt. absurd (omega arith))

-- On tables of their sizes, with a live thread, `getNextRoundRobin` returns the first live slot after the one that it
-- returned before, and remembers it.
pub get_next_round_robin-Nearest :
    (s : Sched)
    → IsShaped s
    → 0 < count_if is_live s.threads
    → (i : ℕ) × (get_next_round_robin s ≡ some (pos i, record s { rr_index = pos i }))
      × Nearest is_live s.threads (after s.rr_index) i
unfolding get_next_round_robin
get_next_round_robin-Nearest s v h =
    let slot = passes_of_count is_live s.threads h in
    let r =
      scan-Nearest is_live s.threads s.rr_index slot.0 v.rr_range
        (omega (arith, slot.1, v.threads_length)) slot.2 in
    (r.0, rw (r.1, get_next_round_robin) refl, r.2)
