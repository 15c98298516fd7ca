-- ===== src/Text/Number.antt =====
-- `printint` of printf.c and of console.c, and `atoi` of ulib.c. The result of a print is the list of the
-- characters that are put. An `int` is its 32-bit word.
use assignment.Prelude.{
  ℕ, zero, suc, ◌+◌, ◌-◌, ◌*◌, ◌/◌, ◌%◌, ◌^◌, Bool, ◌&&◌, List, [], ◌∷◌, ◌==◌, ltb, leb,
  if◌then◌else◌,
}

-- `digits[d]`, with the letters that begin at `letter`.
abbrev pub digit : ℕ → ℕ → ℕ
digit letter d = if ltb d 10 then 48 + d else letter + (d - 10)

-- The `do` loop: the digits of `x` before those that stand already. The buffer is read from its end.
unfoldable pub digits_before : ℕ → ℕ → ℕ → ℕ → List ℕ → List ℕ
digits_before zero letter base x ds = ds
digits_before (suc fuel) letter base x ds =
    let more = digits_before fuel letter base (x / base) (digit letter (x % base) ∷ ds) in
    if x / base == 0 then digit letter (x % base) ∷ ds else more

-- `xx < 0`
abbrev pub is_below_zero : ℕ → Bool
is_below_zero xx = leb (2 ^ 31) xx

unfoldable pub int_text : ℕ → ℕ → ℕ → Bool → List ℕ
int_text letter xx base sign =
    if sign && is_below_zero xx
    then 45 ∷ digits_before 32 letter base (2 ^ 32 - xx) []
    else digits_before 32 letter base xx []

-- `printint` (printf.c) prints A to F, and that of console.c a to f.
abbrev pub printint : ℕ → ℕ → Bool → List ℕ
printint xx base sgn = int_text 65 xx base sgn

abbrev pub console_printint : ℕ → ℕ → Bool → List ℕ
console_printint xx base sign = int_text 97 xx base sign

-- The loop of `atoi`.
unfoldable pub atoi_from : ℕ → List ℕ → ℕ
atoi_from n [] = n
atoi_from n (c ∷ cs) =
    let rest = atoi_from ((n * 10 + (c - 48)) % 2 ^ 32) cs in
    if leb 48 c && leb c 57 then rest else n

unfoldable pub atoi : List ℕ → ℕ
atoi s = atoi_from 0 s
