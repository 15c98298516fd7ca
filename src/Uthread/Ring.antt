-- ===== src/Uthread/Ring.antt =====
-- The inner loop of `getNextRoundRobin` and `getNextPB`: walk round the thread array from the slot
-- after the last one that ran, until a slot passes the test or the walk is back.
use assignment.Prelude.{
  ℕ, zero, suc, ◌+◌, ◌-◌, ◌≢◌, dec_lt, ◌%◌, ◌≤◌, ◌<◌, ◌≡◌, refl, Bool, true, false, List, Option,
  none, some, arith, ℤ, pos, negsuc, ◌==ℤ◌, ==ℤ_iff, if◌then◌else◌, get_elem?, Bool-cases, inl, inr,
}

abbrev pub max_uthreads : ℕ
max_uthreads = 64

-- An index variable of the file: -1, or a slot of the array.
abbrev pub IsIndex : ℤ → Type 0
IsIndex (pos i) = i < max_uthreads
IsIndex (negsuc n) = n ≡ 0

-- (last + 1) % MAX_UTHREADS, for `last` from -1 on; no smaller value is ever stored.
abbrev pub after : ℤ → ℕ
after (pos i) = (i + 1) % max_uthreads
after (negsuc n) = 0

module _ {ℓ} {A : Type ℓ} (test : A → Bool) (ts : List A) where
  -- The test of the slot `i`; the loops only read slots of the array.
  abbrev pub passes : ℕ → Bool
  passes i = elim (get_elem? ts i) [ none ↦ false | some t ↦ test t ]

  -- `while (i != last) { if (test(threads[i])) break; i = (i + 1) % MAX_UTHREADS; }`
  -- `none` means that the fuel is spent and the loop still runs.
  unfoldable pub scan : ℕ → ℤ → ℕ → Option ℕ
  scan zero last i = none
  scan (suc fuel) last i =
      let rest = scan fuel last ((i + 1) % max_uthreads) in
      if pos i ==ℤ last then some i else if passes i then some i else rest

  -- `i` is the first slot that passes on the way round from `start`.
  pub record Nearest (start i : ℕ) : Type ℓ where
    pub steps : ℕ
    pub once : steps < max_uthreads
    pub slot : i ≡ (start + steps) % max_uthreads
    pub chosen : passes i ≡ true
    pub skipped : (k : ℕ) → k < steps → passes ((start + k) % max_uthreads) ≡ false

  -- Back at the last slot, the walk has gone all the way round.
  came_round :
      (last : ℤ) (d i : ℕ)
      → pos i ≡ last
      → i < max_uthreads
      → i ≡ (after last + d) % max_uthreads
      → d < max_uthreads
      → d ≡ 63
  came_round last d i q lt at small =
      let at' : i ≡ ((i + 1) % max_uthreads + d) % max_uthreads = rw (← q) at at in omega arith

  extend_skip :
      (start d : ℕ)
      → ((k : ℕ) → k < d → passes ((start + k) % max_uthreads) ≡ false)
      → passes ((start + d) % max_uthreads) ≡ false
      → (k : ℕ) → k < d + 1
      → passes ((start + k) % max_uthreads) ≡ false
  extend_skip start d skip here k lt = elim (dec_lt k d) [
    | yes below ↦ skip k below
    | no last ↦ let e : k ≡ d = omega arith in rw e here
  ]

  -- The walk is at the slot `d` steps on, and some slot from there on passes.
  scan_from :
      (last : ℤ) (fuel d e i : ℕ)
      → IsIndex last
      → i ≡ (after last + d) % max_uthreads
      → d ≤ e
      → e < d + fuel
      → e < max_uthreads
      → passes ((after last + e) % max_uthreads) ≡ true
      → ((k : ℕ) → k < d → passes ((after last + k) % max_uthreads) ≡ false)
      → (j : ℕ) × (scan fuel last i ≡ some j) × Nearest (after last) j
  unfolding scan
  scan_from last zero d e i ix at le enough small hit skip = absurd (omega arith)
  scan_from last (suc fuel) d e i ix at le enough small hit skip =
      elim (Bool-cases (pos i ==ℤ last)) [
        | inl q ↦
            let back : d ≡ 63 =
              came_round last d i ((==ℤ_iff (pos i) last).0 q) (omega arith) at (omega arith) in
            let same : e ≡ d = omega arith in (i, rw q refl, nearest (rw same at hit))
        | inr q ↦ elim (Bool-cases (passes i)) [
          | inl p ↦ (i, rw (q, p) refl, nearest (rw at at p))
          | inr p ↦
              let miss : passes ((after last + d) % max_uthreads) ≡ false = rw at at p in
              let ne : d ≢ e = λ r.
                (let hit' : passes ((after last + d) % max_uthreads) ≡ true = rw (← r) at hit in
                  cc) in
              let rest =
                scan_from last fuel (d + 1) e ((i + 1) % max_uthreads) ix (omega arith)
                  (omega arith) (omega arith) small hit (extend_skip (after last) d skip miss) in
              (rest.0, rw (q, p) rest.1, rest.2)
        ]
      ]
    where
      nearest : passes ((after last + d) % max_uthreads) ≡ true → Nearest (after last) i
      nearest p = record {
        steps = d;
        once = omega arith;
        slot = at;
        chosen = rw at p;
        skipped = skip;
      }

  -- If any slot passes, at most 64 rounds find the nearest one after `last`.
  pub scan-Nearest :
      (last : ℤ) (j : ℕ)
      → IsIndex last
      → j < max_uthreads
      → passes j ≡ true
      → (i : ℕ) × (scan max_uthreads last (after last) ≡ some i) × Nearest (after last) i
  scan-Nearest last j ix lt hit =
      let e : ℕ = (j + max_uthreads - after last) % max_uthreads in
      let back : (after last + e) % max_uthreads ≡ j = come last ix in
      scan_from last max_uthreads 0 e (after last) ix (come0 last ix) (omega arith) (omega arith)
        (omega arith) (rw back hit) (λ k h. absurd (omega arith))
    where
      come :
          (l : ℤ)
          → IsIndex l
          → (after l + (j + max_uthreads - after l) % max_uthreads) % max_uthreads ≡ j
      come (pos l) h = omega arith
      come (negsuc l) h = omega arith

      come0 : (l : ℤ) → IsIndex l → after l ≡ (after l + 0) % max_uthreads
      come0 (pos l) h = omega arith
      come0 (negsuc l) h = refl
