-- ===== src/Umalloc/FreeLaws.antt =====
-- `free` (umalloc.c) as a whole.
use assignment.Prelude.{
  ℕ, suc, ◌+◌, ◌-◌, ◌<◌, ◌≡◌, ◌≢◌, refl, sym, ap, subst, ◌∙◌, List, [], ◌∷◌, ◌++◌, some, arith,
  length, Avoids, IsDistinct, Avoids-append, Avoids-both, IsDistinct-swap,
}
use assignment.Umalloc.Heap.{Heap, header_size, units, insert, free}
use assignment.Umalloc.SearchLaws.{Chain, search_ends}
use assignment.Umalloc.InsertLaws.{total, insert-Inserted}

Chain-split :
    (ptr : ℕ → ℕ) (p : ℕ) (us : List ℕ) (q : ℕ) (vs : List ℕ) (z : ℕ)
    → Chain ptr p (us ++ (q ∷ vs)) z
    → Chain ptr p us q × Chain ptr q vs z
Chain-split ptr p [] q vs z (e, h) = (e, h)
Chain-split ptr p (u ∷ us) q vs z (e, h) = let r = Chain-split ptr u us q vs z h in ((e, r.0), r.1)

Chain-join :
    (ptr : ℕ → ℕ) (p : ℕ) (us : List ℕ) (q : ℕ) (vs : List ℕ) (z : ℕ)
    → Chain ptr p us q
    → Chain ptr q vs z
    → Chain ptr p (us ++ (q ∷ vs)) z
Chain-join ptr p [] q vs z e h = (e, h)
Chain-join ptr p (u ∷ us) q vs z (e, g) h = (e, Chain-join ptr u us q vs z g h)

total-append :
    (size : ℕ → ℕ) (xs ys : List ℕ) → total size (xs ++ ys) ≡ total size xs + total size ys
total-append size [] ys = omega arith
total-append size (x ∷ xs) ys = omega (arith, total-append size xs ys)

nonempty : (xs : List ℕ) (y : ℕ) (ys : List ℕ) → xs ++ (y ∷ ys) ≢ []
nonempty [] y ys e = ground (arith, e)
nonempty (x ∷ xs) y ys e = ground (arith, e)

-- The same ring, from another of its blocks on.
record Turned (h : Heap) (bp p : ℕ) (xs : List ℕ) (q : ℕ) : Type 0 where
  rest : List ℕ
  ring : Chain h.ptr q rest q
  distinct : IsDistinct (bp ∷ q ∷ rest)
  same_units : total h.size (q ∷ rest) ≡ total h.size (p ∷ xs)
  alone : rest ≡ [] → p ≡ q

turn :
    (h : Heap) (bp p : ℕ) (xs : List ℕ) (q : ℕ) (us vs : List ℕ)
    → Chain h.ptr p xs p
    → IsDistinct (bp ∷ p ∷ xs)
    → p ∷ xs ≡ us ++ (q ∷ vs)
    → Turned h bp p xs q
turn h bp p xs q [] vs ring d e =
    let same : p ≡ q = ground (arith, e) in
    record {
      rest = xs;
      ring = subst (λ y. Chain h.ptr y xs y) same ring;
      distinct = subst (λ y. IsDistinct (bp ∷ y ∷ xs)) same d;
      same_units = ap (λ y. total h.size (y ∷ xs)) (sym same);
      alone = λ _. same;
    }
turn h bp p xs q (u ∷ us) vs ring (av, d) e =
    let split : xs ≡ us ++ (q ∷ vs) = ground (arith, e) in
    let (to, from) = Chain-split h.ptr p us q vs p (subst (λ l. Chain h.ptr p l p) split ring) in
    let around = subst (λ l. IsDistinct (p ∷ l)) split d in
    let (av_us, av_vs) =
      Avoids-append bp (p ∷ us) (q ∷ vs) (subst (λ l. Avoids bp (p ∷ l)) split av) in
    record {
      rest = vs ++ (p ∷ us);
      ring = Chain-join h.ptr q vs p us q from to;
      distinct =
          (Avoids-both bp (q ∷ vs) (p ∷ us) av_vs av_us, IsDistinct-swap (p ∷ us) (q ∷ vs) around);
      same_units =
          let here = total-append h.size us (q ∷ vs) in
          let there = total-append h.size vs (p ∷ us) in
          omega (arith, here, there, ap (total h.size) split);
      alone = λ none_left. absurd (nonempty vs p us none_left);
    }

-- If the free blocks are a closed list of different blocks and the block that is freed is none of them,
-- then `free` ends within one round of the list, and leaves a closed list of different blocks
-- from the new `freep` on that has the units that were free and those of the block; their sum has
-- to fit a word, and the block must not end where a list of one block begins.
pub free_inserts :
    (addr : ℕ) (xs : List ℕ) (h : Heap)
    → Chain h.ptr h.freep xs h.freep
    → IsDistinct ((addr - header_size) ∷ h.freep ∷ xs)
    → units (addr - header_size) (h.size (addr - header_size)) ≢ h.freep
    → total h.size (h.freep ∷ xs) + h.size (addr - header_size) < 4294967296
    → (h' : Heap) × (free (suc (length xs)) addr h ≡ some h')
      × (ys : List ℕ) × Chain h'.ptr h'.freep ys h'.freep
      × IsDistinct (h'.freep ∷ ys)
      × (total h'.size (h'.freep ∷ ys) ≡ total h.size (h.freep ∷ xs) + h.size (addr - header_size))
unfolding free
free_inserts addr xs h ring d touches small =
    let bp = addr - header_size in
    let f = search_ends bp h.ptr h.freep xs ring d.0 in
    let q = f.place in
    let t = turn h bp h.freep xs q f.before f.behind ring d f.in_list in
    let here = f.found in
    let units_same = t.same_units in
    let i =
      insert-Inserted bp q t.rest h t.ring t.distinct
        (λ none_left e. touches (e ∙ sym (t.alone none_left))) (omega (arith, units_same, small)) in
    (
      insert bp q h,
      rw (here, free) refl,
      i.rest,
      subst (λ y. Chain (insert bp q h).ptr y i.rest y) (sym i.found) i.leads,
      subst (λ y. IsDistinct (y ∷ i.rest)) (sym i.found) i.distinct,
      omega (arith, units_same, i.units_kept, ap (insert bp q h).size i.found),
    )
