-- ===== src/Bio/FindLaws.antt =====
-- The search from the back of the list of buffers, in `bget` (bio.c).
use assignment.Prelude.{
  ℕ, zero, suc, ◌≡◌, inl, inr, refl, sym, ap, ◌∙◌, Bool, true, false, List, [], ◌∷◌, none, some,
  arith, Option-cases, if◌then◌else◌, get_elem?,
}
use assignment.Bio.Cache.{Buf, find_last}

pub find_last-some :
    (p : Buf → Bool) (bufs : List Buf) (i : ℕ)
    → find_last p bufs ≡ some i
    → (x : Buf) × (get_elem? bufs i ≡ some x) × (p x ≡ true)
unfolding find_last
find_last-some p [] i e = ground (arith, e)
find_last-some p (b ∷ bufs) zero e = elim (Option-cases (find_last p bufs)) [
  | inr (k, q) ↦
      let h : find_last p (b ∷ bufs) ≡ some (suc k) = rw (q, find_last) refl in
      absurd (ground (arith, sym h ∙ e))
  | inl q ↦
      let h : find_last p (b ∷ bufs) ≡ (if p b then some 0 else none) = rw (q, find_last) refl in
      (b, refl, ground (arith, sym h ∙ e))
]
find_last-some p (b ∷ bufs) (suc i) e = elim (Option-cases (find_last p bufs)) [
  | inr (k, q) ↦
      let h : find_last p (b ∷ bufs) ≡ some (suc k) = rw (q, find_last) refl in
      find_last-some p bufs i (q ∙ ap some (ground (arith, sym h ∙ e)))
  | inl q ↦
      let h : find_last p (b ∷ bufs) ≡ (if p b then some 0 else none) = rw (q, find_last) refl in
      absurd (ground (arith, sym h ∙ e))
]

none_here :
    (p : Buf → Bool) (b : Buf) (bufs : List Buf) (j : ℕ) (y : Buf)
    → p b ≡ false
    → find_last p bufs ≡ none
    → get_elem? (b ∷ bufs) j ≡ some y
    → ((i : ℕ) (z : Buf) → find_last p bufs ≡ none → get_elem? bufs i ≡ some z → p z ≡ false)
    → p y ≡ false
none_here p b bufs zero y h q at ih = ground (arith, h, at)
none_here p b bufs (suc j) y h q at ih = ih j y q at

pub find_last-none :
    (p : Buf → Bool) (bufs : List Buf) (j : ℕ) (y : Buf)
    → find_last p bufs ≡ none
    → get_elem? bufs j ≡ some y
    → p y ≡ false
unfolding find_last
find_last-none p [] j y e at = absurd (ground (arith, at))
find_last-none p (b ∷ bufs) j y e at = elim (Option-cases (find_last p bufs)) [
  | inr (k, q) ↦
      let h : find_last p (b ∷ bufs) ≡ some (suc k) = rw (q, find_last) refl in
      absurd (ground (arith, sym h ∙ e))
  | inl q ↦
      let h : find_last p (b ∷ bufs) ≡ (if p b then some 0 else none) = rw (q, find_last) refl in
      none_here p b bufs j y (ground (arith, sym h ∙ e)) q at (find_last-none p bufs)
]
