-- ===== src/Text/NumberLaws.antt =====
-- `atoi` (ulib.c) of what `printint` (printf.c) prints.
use assignment.Prelude.{
  ℕ, zero, suc, ◌+◌, ◌*◌, ◌/◌, ◌%◌, ◌<◌, ◌≡◌, inl, inr, ap, ◌∙◌, true, false, List, [], ◌∷◌, arith,
  ◌&&◌, ◌==◌, leb, Bool-cases,
}
use assignment.Text.Number.{digit, digits_before, int_text, printint, atoi_from, atoi}

-- 10 to the `f`
tens : ℕ → ℕ
tens zero = 1
tens (suc f) = 10 * tens f

digit_lem : (d : ℕ) → d < 10 → digit 65 d ≡ 48 + d
digit_lem d lt = ground arith

atoi_from-digit :
    (n d : ℕ) (cs : List ℕ)
    → d < 10
    → atoi_from n (digit 65 d ∷ cs) ≡ atoi_from ((n * 10 + d) % 4294967296) cs
unfolding atoi_from
atoi_from-digit n d cs lt =
    ap (λ c. atoi_from n (c ∷ cs)) (digit_lem d lt)
    ∙ rw (decimal d lt) (ap (λ e. atoi_from ((n * 10 + e) % 4294967296) cs) (omega arith))
  where
    decimal : (d : ℕ) → d < 10 → (leb 48 (48 + d) && leb (48 + d) 57) ≡ true
    decimal d lt = ground arith

atoi_from-digits_before :
    (f x : ℕ) (ds : List ℕ)
    → x < tens f
    → x < 4294967296
    → atoi_from 0 (digits_before f 65 10 x ds) ≡ atoi_from x ds
unfolding digits_before tens
atoi_from-digits_before zero x ds lt fits = ap (λ n. atoi_from n ds) (omega (arith, lt))
atoi_from-digits_before (suc f) x ds lt fits = elim (Bool-cases (x / 10 == 0)) [
  | inl e ↦ rw e (
      atoi_from-digit 0 (x % 10) ds (omega arith)
      ∙ ap (λ n. atoi_from n ds) (ground (arith, e, fits)))
  | inr e ↦ rw e (
      atoi_from-digits_before f (x / 10) (digit 65 (x % 10) ∷ ds) (omega (arith, lt))
        (omega (arith, fits))
      ∙ atoi_from-digit (x / 10) (x % 10) ds (omega arith)
      ∙ ap (λ n. atoi_from n ds) (ground (arith, e, fits)))
]

below_tens : (x : ℕ) → x < 2147483648 → x < tens 32
unfolding tens
below_tens x lt = omega (arith, lt)

-- What `printint` prints of an `int` that is not negative in base 10 is read back by `atoi`.
pub atoi-printint : (x : ℕ) → x < 2147483648 → atoi (printint x 10 true) ≡ x
unfolding atoi atoi_from int_text
atoi-printint x lt =
    rw (not_below x lt) (atoi_from-digits_before 32 x [] (below_tens x lt) (omega (arith, lt)))
  where
    not_below : (x : ℕ) → x < 2147483648 → leb 2147483648 x ≡ false
    not_below x lt = ground arith
