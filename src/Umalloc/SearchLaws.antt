-- ===== src/Umalloc/SearchLaws.antt =====
-- The loop of `free` (umalloc.c) ends.
use assignment.Prelude.{
  Avoids, ℕ, suc, ◌<◌, ◌≡◌, ◌≢◌, ◌⊎◌, inl, inr, refl, sym, ap, ◌∙◌, false, List, [], ◌∷◌, ◌++◌,
  some, arith, ltb, length, Bool-cases,
}
use assignment.Umalloc.Heap.{stops, search}

-- The pointers lead from `p` over `xs` to `z`.
abbrev pub Chain : (ℕ → ℕ) → ℕ → List ℕ → ℕ → Type 0
Chain ptr p [] z = ptr p ≡ z
Chain ptr p (x ∷ xs) z = (ptr p ≡ x) × Chain ptr x xs z

-- What the loop has learned when it comes from `p` to `z`: below the block the addresses rise and stay
-- below it, and above it they rise as long as they stay above.
abbrev Rises : ℕ → ℕ → ℕ → Type 0
Rises bp p z = (p < bp → (p < z) × (z < bp)) × (bp < p → (z < bp) ⊎ (p < z))

Rises-step : (bp p z : ℕ) → bp ≢ z → stops bp p z ≡ false → Rises bp p z
unfolding stops
Rises-step bp p z ne e = (
  λ lt. (ground arith, ground arith),
  λ lt. elim (Bool-cases (ltb z bp)) [
    | inl below ↦ inl (ground (arith, below))
    | inr above ↦ inr (ground arith)
  ],
)

Rises-trans : (bp p x z : ℕ) → bp ≢ x → Rises bp p x → Rises bp x z → Rises bp p z
Rises-trans bp p x z ne (below, above) (below', above') = (
  λ lt. let (px, xb) = below lt in let (xz, zb) = below' xb in (omega (arith, px, xz), zb),
  λ lt. elim (above lt) [
    | inl xb ↦ inl (below' xb).1
    | inr px ↦ elim (Bool-cases (ltb x bp)) [
      | inl xb ↦ inl (below' (ground (arith, xb))).1
      | inr bx ↦ elim (above' (ground (arith, bx, ne))) [
        | inl zb ↦ inl zb
        | inr xz ↦ inr (omega (arith, px, xz))
      ]
    ]
  ],
)

-- The loop has found a block of the list `xs`, with `before` and `behind` it.
pub record Found (fuel bp : ℕ) (ptr : ℕ → ℕ) (p : ℕ) (xs : List ℕ) : Type 0 where
  pub place : ℕ
  pub before : List ℕ
  pub behind : List ℕ
  pub in_list : xs ≡ before ++ (place ∷ behind)
  pub found : search fuel bp ptr p ≡ some place

search_along :
    (bp : ℕ) (ptr : ℕ → ℕ) (p : ℕ) (xs : List ℕ) (z : ℕ)
    → Chain ptr p xs z
    → Avoids bp xs
    → bp ≢ z
    → Found (suc (length xs)) bp ptr p (p ∷ xs) ⊎ Rises bp p z
unfolding search
search_along bp ptr p [] z e av ne = elim (Bool-cases (stops bp p (ptr p))) [
  | inl here ↦
      inl (record { place = p; before = []; behind = []; in_list = refl; found = rw here refl })
  | inr onward ↦ inr (Rises-step bp p z ne (ap (stops bp p) (sym e) ∙ onward))
]
search_along bp ptr p (x ∷ xs) z (e, h) (ne_x, av) ne = elim (Bool-cases (stops bp p (ptr p))) [
  | inl here ↦
      inl (record { place = p; before = []; behind = x ∷ xs; in_list = refl; found = rw here refl })
  | inr onward ↦
      let first = Rises-step bp p x ne_x (ap (stops bp p) (sym e) ∙ onward) in
      elim (search_along bp ptr x xs z h av ne) [
        | inl f ↦
            let later = f.found in
            inl (record {
              place = f.place;
              before = p ∷ f.before;
              behind = f.behind;
              in_list = ap (λ l. p ∷ l) f.in_list;
              found = rw (onward, e, search) (rw later refl);
            })
        | inr rest ↦ inr (Rises-trans bp p x z ne_x first rest)
      ]
]

-- The loop of `free` ends within one round of the list of the free blocks, in whatever order the list goes
-- through the addresses, if the block is not in it.
pub search_ends :
    (bp : ℕ) (ptr : ℕ → ℕ) (p : ℕ) (xs : List ℕ)
    → Chain ptr p xs p
    → Avoids bp (p ∷ xs)
    → Found (suc (length xs)) bp ptr p (p ∷ xs)
search_ends bp ptr p xs h (ne, av) = elim (search_along bp ptr p xs p h av ne) [
  | inl f ↦ f
  | inr (below, above) ↦ elim (Bool-cases (ltb p bp)) [
    | inl lt ↦ let (pp, _) = below (ground (arith, lt)) in absurd (omega (arith, pp))
    | inr le ↦
        let gt : bp < p = ground (arith, le, ne) in
        elim (above gt) [
          | inl pb ↦ absurd (omega (arith, pb, gt))
          | inr pp ↦ absurd (omega (arith, pp))
        ]
  ]
]
