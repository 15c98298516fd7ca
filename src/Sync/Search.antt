-- ===== src/Sync/Search.antt =====
-- `isInQueue`: it always ends, it is exact on the low part of the ring, and it is blind at some
-- counts. It goes round at MAX_MUTEXES, 64, where the ring goes round at MAX_THREADS, 256.
use assignment.Prelude.{
  ℕ, zero, suc, ◌+◌, ◌-◌, ◌%◌, ◌≤◌, ◌<◌, ◌≡◌, ◌≢◌, refl, ◌∙◌, ap, ◌⊎◌, Bool, true, false, List,
  Option, some, arith, ℤ, pos, ◌+ℤ◌, rem, ◌==ℤ◌, ==ℤ_iff, get_elem?, get_elem?_of_lt, length,
  Bool-cases, inl, inr, dec_lt,
}
use assignment.Kernel.{TidQueue, max_threads, max_mutexes}
use assignment.Sync.Queue.{search_from, search_fuel, is_in_queue}
use assignment.Sync.Fifo.{IsRing}

module _ (tids : List ℤ) (tid : ℤ) (u : ℕ) (room : length tids ≡ max_threads) where
  -- From an index below 64 the walk reaches any other within a round.
  search_ends :
      (fuel i : ℕ)
      → i < max_mutexes
      → u < max_mutexes
      → (u + max_mutexes - i) % max_mutexes < fuel
      → (b : Bool) × (search_from fuel tids tid (pos u) i ≡ some b)
  unfolding search_from
  search_ends zero i lt lu enough = absurd (omega arith)
  search_ends (suc fuel) i lt lu enough = elim (Bool-cases (pos i ==ℤ pos u)) [
    | inl e ↦ (false, rw (e, search_from) refl)
    | inr e ↦
        let ne : i ≢ u = ground arith in
        let slot = get_elem?_of_lt tids i (omega arith) in
        elim (Bool-cases (slot.0 ==ℤ tid)) [
          | inl h ↦ (true, rw (e, slot.1, h, search_from) refl)
          | inr h ↦
              let rest = search_ends fuel ((i + 1) % max_mutexes) (omega arith) lu (omega arith) in
              (rest.0, rw (e, slot.1, h, search_from) rest.1)
        ]
  ]

  -- One look at an index anywhere in the array, and the walk goes on below 64.
  search_first :
      (fuel i : ℕ) (t : ℤ)
      → (max_mutexes < fuel) × (u < max_mutexes)
      → get_elem? tids i ≡ some t
      → (b : Bool) × (search_from (suc fuel) tids tid (pos u) i ≡ some b)
  unfolding search_from
  search_first fuel i t ok at = elim (Bool-cases (pos i ==ℤ pos u)) [
    | inl e ↦ (false, rw (e, search_from) refl)
    | inr e ↦ elim (Bool-cases (t ==ℤ tid)) [
      | inl h ↦ (true, rw (e, at, h, search_from) refl)
      | inr h ↦
          let rest = search_ends fuel ((i + 1) % max_mutexes) (omega arith) ok.1 (omega arith) in
          (rest.0, rw (e, at, h, search_from) rest.1)
    ]
  ]

  -- The walk from `i` up to `u`, with no turn.
  Answers : ℕ → Option Bool → Type 0
  Answers i r =
      ((r ≡ some true) × ((j : ℕ) × (i ≤ j) × (j < u) × (get_elem? tids j ≡ some tid)))
      ⊎ ((r ≡ some false) × ((j : ℕ) → i ≤ j → j < u → get_elem? tids j ≢ some tid))

  search-Answers :
      (fuel i : ℕ)
      → i ≤ u
      → u < max_mutexes
      → u < i + fuel
      → Answers i (search_from fuel tids tid (pos u) i)
  unfolding search_from Answers
  search-Answers zero i le lu enough = absurd (omega arith)
  search-Answers (suc fuel) i le lu enough = elim (Bool-cases (pos i ==ℤ pos u)) [
    | inl e ↦
        inr (
          rw (e, search_from) refl,
          λ j l h. let same : i ≡ u = ground arith in absurd (omega arith),
        )
    | inr e ↦
        let ne : i ≢ u = ground arith in
        let slot = get_elem?_of_lt tids i (omega arith) in
        elim (Bool-cases (slot.0 ==ℤ tid)) [
          | inl h ↦ inl (
            rw (e, slot.1, h, search_from) refl,
            (i, omega arith, omega arith, slot.1 ∙ ap some ((==ℤ_iff slot.0 tid).0 h)),
          )
          | inr h ↦
              let next : (i + 1) % max_mutexes ≡ i + 1 = omega arith in
              elim (search-Answers fuel (i + 1) (omega arith) lu (omega arith)) [
                | inl (r, found) ↦ inl (
                  rw (e, slot.1, h, next, search_from) r,
                  (found.0, omega (arith, found.1), found.2, found.3),
                )
                | inr (r, off) ↦ inr (
                  rw (e, slot.1, h, next, search_from) r,
                  λ j l h'. elim (dec_lt i j) [
                    | yes lt ↦ off j (omega arith) h'
                    | no ge ↦ λ at.
                        let same : j ≡ i = omega arith in miss i slot.0 slot.1 h (rw same at at)
                  ],
                )
              ]
        ]
  ]
    where
      miss :
          (j : ℕ) (t : ℤ)
          → get_elem? tids j ≡ some t
          → (t ==ℤ tid) ≡ false
          → get_elem? tids j ≢ some tid
      miss j t at ne here = ground (arith, at, ne, here, ==ℤ_iff t tid)

search_stops :
    (tids : List ℤ) (tid : ℤ) (u fuel i : ℕ)
    → u ≡ i
    → search_from (suc fuel) tids tid (pos u) i ≡ some false
unfolding search_from
search_stops tids tid u fuel i e = ground arith

module _ (q : TidQueue) (n : ℕ) (tid : ℤ) (v : IsRing q n) where
  until : ℕ
  until = (q.start_index + n + 1) % max_mutexes

  check_until : rem (pos q.start_index +ℤ q.count +ℤ pos 1) max_mutexes ≡ pos until
  unfolding until
  check_until = ground (arith, v.counted)

  from_start :
      is_in_queue q tid ≡ search_from search_fuel q.sleeping_tid tid (pos until) q.start_index
  unfolding is_in_queue
  from_start = ap (λ u. search_from search_fuel q.sleeping_tid tid u q.start_index) check_until

  -- On a ring that is intact `isInQueue` ends with an answer.
  pub is_in_queue_ends : (b : Bool) × (is_in_queue q tid ≡ some b)
  unfolding until
  is_in_queue_ends =
      let slot = get_elem?_of_lt q.sleeping_tid q.start_index (omega (arith, v.room, v.start)) in
      rw from_start
        (search_first q.sleeping_tid tid until v.room 65 q.start_index slot.0 (omega arith) slot.1)

  -- While `startIndex + count` stays below 63, `isInQueue` says exactly whether the thread id
  -- stands in the entries from `startIndex` on, the waiting ones and the one after them.
  pub is_in_queue_exact :
      q.start_index + n + 1 < max_mutexes
      → ((is_in_queue q tid ≡ some true)
          × ((j : ℕ) × (q.start_index ≤ j)
              × (j ≤ q.start_index + n)
              × (get_elem? q.sleeping_tid j ≡ some tid)))
        ⊎ ((is_in_queue q tid ≡ some false)
            × ((j : ℕ)
                → q.start_index ≤ j
                → j ≤ q.start_index + n
                → get_elem? q.sleeping_tid j ≢ some tid))
  unfolding until Answers
  is_in_queue_exact low =
      let u : until ≡ q.start_index + n + 1 = omega arith in
      elim (search-Answers q.sleeping_tid tid until v.room search_fuel q.start_index (omega arith)
        (omega arith) (omega arith)) [
          | inl (r, found) ↦
              inl (from_start ∙ r, (found.0, found.1, omega (arith, found.2), found.3))
          | inr (r, off) ↦ inr (from_start ∙ r, λ j l h. off j l (omega arith))
        ]

  -- With 63, 127 or 191 threads waiting, from a start below 64, `isInQueue` looks at no entry and
  -- says no.
  pub is_in_queue_blind :
      q.start_index < max_mutexes → n % max_mutexes ≡ 63 → is_in_queue q tid ≡ some false
  unfolding until
  is_in_queue_blind low full =
      let u : until ≡ q.start_index = omega arith in
      from_start ∙ search_stops q.sleeping_tid tid until 65 q.start_index u
