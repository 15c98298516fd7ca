-- ===== src/Umalloc/InsertLaws.antt =====
-- What `free` (umalloc.c) does to the list of the free blocks at the place that its loop finds.
use assignment.Prelude.{
  Avoids, IsDistinct, ℕ, ◌+◌, ◌%◌, ◌^◌, ◌<◌, ◌≡◌, ◌≢◌, inl, inr, refl, sym, ap, subst, false, List,
  [], ◌∷◌, arith, ◌==◌, Bool-cases,
}
use assignment.Fs.Block.{update}
use assignment.Umalloc.Heap.{Heap, units, join_above, join_below, insert}
use assignment.Umalloc.SearchLaws.{Chain}

-- The units of some blocks.
abbrev pub total : (ℕ → ℕ) → List ℕ → ℕ
total size [] = 0
total size (x ∷ xs) = size x + total size xs

Chain-update :
    (ptr : ℕ → ℕ) (c d p : ℕ) (xs : List ℕ) (z : ℕ)
    → c ≢ p
    → Avoids c xs
    → Chain ptr p xs z
    → Chain (update ptr c d) p xs z
Chain-update ptr c d p [] z ne av e = ground (arith, ne, e)
Chain-update ptr c d p (x ∷ xs) z ne (ne', av) (e, h) =
    (ground (arith, ne, e), Chain-update ptr c d x xs z ne' av h)

total-update :
    (size : ℕ → ℕ) (c d : ℕ) (xs : List ℕ)
    → Avoids c xs
    → total (update size c d) xs ≡ total size xs
total-update size c d [] av = refl
total-update size c d (x ∷ xs) (ne, av) = ground (arith, ne, total-update size c d xs av)

-- A block that takes over the pointer of another leads where that one led.
Chain-taken :
    (ptr : ℕ → ℕ) (c x : ℕ) (xs : List ℕ) (z : ℕ)
    → Avoids c xs
    → Chain ptr x xs z
    → Chain (update ptr c (ptr x)) c xs z
Chain-taken ptr c x [] z av e = ground (arith, e)
Chain-taken ptr c x (y ∷ ys) z (ne, av) (e, h) =
    (ground (arith, e), Chain-update ptr c (ptr x) y ys z ne av h)

-- The list from the block `bp` on, after it is joined to the one above or not.
record Above (bp p : ℕ) (xs : List ℕ) (h h' : Heap) : Type 0 where
  rest : List ℕ
  leads : Chain h'.ptr bp rest p
  apart : Avoids bp rest
  below_apart : Avoids p rest
  distinct : IsDistinct rest
  units_kept : h'.size bp + total h'.size rest ≡ h.size bp + total h.size xs
  below_kept : h'.size p ≡ h.size p

join_above-Above :
    (bp p : ℕ) (xs : List ℕ) (h : Heap)
    → Chain h.ptr p xs p
    → bp ≢ p
    → Avoids bp xs
    → IsDistinct (p ∷ xs)
    → (xs ≡ [] → units bp (h.size bp) ≢ p)
    → h.size bp + total h.size xs < 4294967296
    → Above bp p xs h (join_above bp p h)
unfolding join_above
join_above-Above bp p [] h e ne av d apart small =
    let no_join : (units bp (h.size bp) == h.ptr p) ≡ false = ground (arith, e, apart refl) in
    rw no_join (record {
      rest = [];
      leads = ground (arith, e);
      apart = tt;
      below_apart = tt;
      distinct = tt;
      units_kept = refl;
      below_kept = refl;
    })
join_above-Above bp p (x ∷ xs) h (e, g) ne (nex, av) ((npx, avp), (axs, d)) apart small =
    elim (Bool-cases (units bp (h.size bp) == h.ptr p)) [
      | inr no_join ↦ rw no_join (record {
        rest = x ∷ xs;
        leads = (ground (arith, e), Chain-update h.ptr bp (h.ptr p) x xs p nex av g);
        apart = (nex, av);
        below_apart = (npx, avp);
        distinct = (axs, d);
        units_kept = refl;
        below_kept = refl;
      })
      | inl join ↦ rw join (record {
        rest = xs;
        leads =
            subst (λ y. Chain (update h.ptr bp (h.ptr y)) bp xs p) (sym e)
              (Chain-taken h.ptr bp x xs p av g);
        apart = av;
        below_apart = avp;
        distinct = d;
        units_kept =
            let others = total-update h.size bp ((h.size bp + h.size (h.ptr p)) % 2 ^ 32) xs av in
            let above = ap h.size e in ground (arith, others, above, small);
        below_kept = ground (arith, ne);
      })
    ]

-- The list after `free`, from the place that the loop found.
pub record Inserted (bp p : ℕ) (xs : List ℕ) (h h' : Heap) : Type 0 where
  pub rest : List ℕ
  pub leads : Chain h'.ptr p rest p
  pub distinct : IsDistinct (p ∷ rest)
  pub units_kept : h'.size p + total h'.size rest ≡ h.size p + total h.size xs + h.size bp
  pub found : h'.freep ≡ p

join_below-Inserted :
    (bp p : ℕ) (xs : List ℕ) (h0 h : Heap)
    → bp ≢ p
    → Above bp p xs h0 h
    → h0.size p + total h0.size xs + h0.size bp < 4294967296
    → Inserted bp p xs h0 (record (join_below bp p h) { freep = p })
unfolding join_below
join_below-Inserted bp p xs h0 h ne a small = elim (Bool-cases (units p (h.size p) == bp)) [
  | inl join ↦ rw join (record {
    rest = a.rest;
    leads = Chain-taken h.ptr p bp a.rest p a.below_apart a.leads;
    distinct = (a.below_apart, a.distinct);
    units_kept =
        let others = total-update h.size p ((h.size p + h.size bp) % 2 ^ 32) a.rest a.below_apart in
        ground (arith, others, a.units_kept, a.below_kept, small);
    found = refl;
  })
  | inr no_join ↦ rw no_join (record {
    rest = bp ∷ a.rest;
    leads =
        (ground arith, Chain-update h.ptr p bp bp a.rest p (λ e. ne (sym e)) a.below_apart a.leads);
    distinct = ((λ e. ne (sym e), a.below_apart), (a.apart, a.distinct));
    units_kept = omega (arith, a.units_kept, a.below_kept);
    found = refl;
  })
]

pub insert-Inserted :
    (bp p : ℕ) (xs : List ℕ) (h : Heap)
    → Chain h.ptr p xs p
    → IsDistinct (bp ∷ p ∷ xs)
    → (xs ≡ [] → units bp (h.size bp) ≢ p)
    → h.size p + total h.size xs + h.size bp < 4294967296
    → Inserted bp p xs h (insert bp p h)
unfolding insert
insert-Inserted bp p xs h ring ((ne, av), d) touches small =
    join_below-Inserted bp p xs h (join_above bp p h) ne
      (join_above-Above bp p xs h ring ne av d touches (omega (arith, small))) small
