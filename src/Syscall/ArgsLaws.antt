-- ===== src/Syscall/ArgsLaws.antt =====
-- What the checks of syscall.c give: strings and blocks inside the memory of the process.
use assignment.Prelude.{
  ℕ, zero, suc, ◌+◌, ◌-◌, ◌%◌, ◌^◌, ◌≤◌, ◌<◌, ◌≡◌, ◌≢◌, ◌⊎◌, inl, inr, refl, sym, ap, ◌∙◌, ◌||◌,
  leb, ltb, none, some, arith, Bool-cases, Option-cases, ◌==◌, if◌then◌else◌,
}
use assignment.Syscall.Args.{User, scan, fetchstr, argint, argptr}

-- The string at `s` ends at its first zero, `k` bytes on, among `n`.
pub record EndsAt (mem : ℕ → ℕ) (s n k : ℕ) : Type 0 where
  pub inside : k < n
  pub ends : mem (s + k) ≡ 0
  pub before : (j : ℕ) → j < k → mem (s + j) ≢ 0

abbrev pub HasNoEnd : (ℕ → ℕ) → ℕ → ℕ → Type 0
HasNoEnd mem s n = (j : ℕ) → j < n → mem (s + j) ≢ 0

HasNoEnd-step :
    (mem : ℕ → ℕ) (s n : ℕ) → mem s ≢ 0 → HasNoEnd mem (s + 1) n → HasNoEnd mem s (suc n)
HasNoEnd-step mem s n ne all zero lt = λ e. ne (ap mem (omega arith) ∙ e)
HasNoEnd-step mem s n ne all (suc j) lt = λ e. all j (omega (arith, lt)) (ap mem (omega arith) ∙ e)

scan_cases :
    (n : ℕ) (mem : ℕ → ℕ) (s : ℕ)
    → ((scan n mem s ≡ none) × HasNoEnd mem s n)
      ⊎ ((k : ℕ) × (scan n mem s ≡ some k) × EndsAt mem s n k)
unfolding scan
scan_cases zero mem s = inl (refl, λ j lt. absurd (omega arith))
scan_cases (suc n) mem s = elim (Bool-cases (mem s == 0)) [
  | inl e ↦ inr (
    0,
    rw (e, scan) refl,
    record {
      inside = omega arith;
      ends = ground arith;
      before = λ j lt. absurd (omega (arith, lt));
    },
  )
  | inr e ↦ elim (scan_cases n mem (s + 1)) [
    | inl (q, all) ↦
        inl (rw (e, scan) (rw (q, scan) refl), HasNoEnd-step mem s n (ground arith) all)
    | inr (k, q, at) ↦ inr (
      suc k,
      rw (e, scan) (rw (q, scan) refl),
      record {
        inside = omega (arith, at.inside);
        ends = ap mem (omega arith) ∙ at.ends;
        before = HasNoEnd-step mem s k (ground arith) at.before;
      },
    )
  ]
]

-- `fetchstr` returns the length of the string at `addr` if it ends inside the memory of the process,
-- and -1 if it does not or `addr` is outside.
pub fetchstr_measures :
    (u : User) (addr : ℕ)
    → ((fetchstr u addr ≡ none) × ((u.sz ≤ addr) ⊎ HasNoEnd u.mem addr (u.sz - addr)))
      ⊎ ((k : ℕ) × (fetchstr u addr ≡ some k)
          × (addr + k < u.sz)
          × EndsAt u.mem addr (u.sz - addr) k)
unfolding fetchstr
fetchstr_measures u addr = elim (Bool-cases (leb u.sz addr)) [
  | inl e ↦ inl (rw (e, fetchstr) refl, inl (ground arith))
  | inr e ↦ elim (scan_cases (u.sz - addr) u.mem addr) [
    | inl (q, all) ↦ inl (rw (e, fetchstr) q, inr all)
    | inr (k, q, at) ↦ inr (k, rw (e, fetchstr) q, omega (arith, at.inside), at)
  ]
]

none_arg : (n size : ℕ) (u : User) → argint n u ≡ none → argptr n size u ≡ none
unfolding argptr
none_arg n size u q = rw (q, argptr) refl

-- A block that `argptr` accepts lies in the memory of the process, if its size is not so large that
-- its end wraps round.
pub argptr_inside :
    (n size : ℕ) (u : User) (i : ℕ)
    → u.sz + size < 4294967296
    → argptr n size u ≡ some i
    → (argint n u ≡ some i) × (i < u.sz) × (i + size ≤ u.sz)
unfolding argptr
argptr_inside n size u i small e = elim (Option-cases (argint n u)) [
  | inl q ↦ absurd (ground (arith, sym (none_arg n size u q) ∙ e))
  | inr (a, q) ↦
      let inner : (if leb u.sz a || ltb u.sz ((a + size) % 2 ^ 32) then none else some a) ≡ some i =
        sym (rw (q, argptr) refl) ∙ e in
      let same : a ≡ i = ground (arith, inner) in
      (q ∙ ap some same, ground (arith, inner, same), ground (arith, inner, same))
]
