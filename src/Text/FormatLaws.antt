-- ===== src/Text/FormatLaws.antt =====
-- `printf` (printf.c) and `cprintf` (console.c) agree on decimal numbers and strings.
use assignment.Prelude.{
  ℕ, zero, suc, ◌/◌, ◌%◌, ◌<◌, ◌≡◌, ◌≢◌, refl, sym, subst, ap, ℕ_discrete, ◌-◌, ◌^◌, inl, inr, ◌∙◌,
  ◌+◌, Bool, true, false, ◌||◌, List, [], ◌∷◌, ◌++◌, arith, ◌==◌, Bool-cases, if◌then◌else◌,
}
use assignment.Text.Number.{digit, is_below_zero, digits_before, int_text}
use assignment.Text.Format.{percent, printf_from, cprintf_from}

-- The format has no %c, %x or %p. The state is that of the loop of `printf`.
abbrev pub IsDecimal : Bool → List ℕ → Type 0
IsDecimal state [] = Unit
IsDecimal false (c ∷ fmt) = if c == percent then IsDecimal true fmt else IsDecimal false fmt
IsDecimal true (c ∷ fmt) = (c ≢ 99) × (c ≢ 112) × (c ≢ 120) × IsDecimal false fmt

same_digit : (d : ℕ) → d < 10 → digit 65 d ≡ digit 97 d
same_digit d lt = ground arith

same_digits : (f x : ℕ) (ds : List ℕ) → digits_before f 65 10 x ds ≡ digits_before f 97 10 x ds
unfolding digits_before
same_digits zero x ds = refl
same_digits (suc f) x ds =
    let e : digit 65 (x % 10) ≡ digit 97 (x % 10) = same_digit (x % 10) (omega arith) in
    elim (Bool-cases (x / 10 == 0)) [
      | inl q ↦ rw q (ap (λ d. d ∷ ds) e)
      | inr q ↦ rw q (
          ap (λ d. digits_before f 65 10 (x / 10) (d ∷ ds)) e
          ∙ same_digits f (x / 10) (digit 97 (x % 10) ∷ ds))
    ]

same_int : (xx : ℕ) → int_text 97 xx 10 true ≡ int_text 65 xx 10 true
unfolding int_text
same_int xx = elim (Bool-cases (is_below_zero xx)) [
  | inl e ↦ rw e (ap (λ ds. 45 ∷ ds) (sym (same_digits 32 (2 ^ 32 - xx) [])))
  | inr e ↦ rw e (sym (same_digits 32 xx []))
]

-- What a '%' and the character `d` print in both.
same_choice :
    (d : ℕ) (i j x y str u v w z : List ℕ) (a : ℕ)
    → d ≢ 99
    → d ≢ 112
    → d ≢ 120
    → i ≡ j
    → u ≡ v
    → w ≡ z
    → (if d == 100
        then i ++ u
        else (if d == 120 || d == 112
            then x ++ u
            else (if d == 115
                then str ++ u
                else (if d == percent then percent ∷ w else percent ∷ d ∷ w))))
      ≡ (if d == 100
          then j ++ v
          else (if d == 120 || d == 112
              then y ++ v
              else (if d == 115
                  then str ++ v
                  else (if d == 99
                      then a ∷ v
                      else (if d == percent then percent ∷ z else percent ∷ d ∷ z)))))
same_choice d i j x y str u v w z a n99 n112 n120 ei eu ew =
    ground (arith, ei, eu, ew, n99, n112, n120)

is_percent : (c : ℕ) → c ≡ percent → (c == percent) ≡ true
is_percent c e = ground arith

is_plain : (c : ℕ) → c ≢ percent → (c == percent) ≡ false
is_plain c ne = ground arith

IsDecimal-at :
    (c : ℕ) (fmt : List ℕ) (b : Bool)
    → (c == percent) ≡ b
    → IsDecimal false (c ∷ fmt)
    → (if b then IsDecimal true fmt else IsDecimal false fmt)
IsDecimal-at c fmt b e h = subst (λ b. if b then IsDecimal true fmt else IsDecimal false fmt) e h

module _ (args : ℕ → ℕ) (mem : ℕ → List ℕ) where
  -- For a format with no %c, %x or %p, `cprintf` puts the characters that `printf` puts.
  pub cprintf-printf :
      (k : ℕ) (fmt : List ℕ)
      → IsDecimal false fmt
      → cprintf_from args mem k fmt ≡ printf_from args mem false k fmt
  unfolding cprintf_from printf_from
  cprintf-printf k [] h = refl
  cprintf-printf k (c ∷ []) h = refl
  cprintf-printf k (c ∷ d ∷ fmt) h = elim (ℕ_discrete c percent) [
    | yes e ↦
        let (n99, n112, n120, rest) = IsDecimal-at c (d ∷ fmt) true (is_percent c e) h in
        rw (is_percent c e) (
          same_choice d _ _ _ _ _ _ _ _ _ (args k % 256) n99 n112 n120 (same_int (args k))
            (cprintf-printf (k + 1) fmt rest) (cprintf-printf k fmt rest))
    | no ne ↦ rw (is_plain c ne) (
        ap (λ l. c ∷ l)
          (cprintf-printf k (d ∷ fmt) (IsDecimal-at c (d ∷ fmt) false (is_plain c ne) h)))
  ]
