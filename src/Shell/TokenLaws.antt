-- ===== src/Shell/TokenLaws.antt =====
-- `gettoken` (sh.c) moves on over a symbol.
use assignment.Prelude.{
  ℕ, ◌≤◌, ◌<◌, ◌≡◌, inl, inr, refl, ap, true, List, [], ◌∷◌, arith, Bool-cases, length,
}
use assignment.Shell.Token.{
  has, whitespace, symbols, skip_space, word, after_greater, token_at, gettoken, starts, peek,
}

length-skip_space : (s : List ℕ) → length (skip_space s) ≤ length s
unfolding skip_space
length-skip_space [] = omega arith
length-skip_space (c ∷ s) = ground (arith, length-skip_space s)

length-word : (s : List ℕ) → length (word s).1 ≤ length s
unfolding word
length-word [] = omega arith
length-word (c ∷ s) = ground (arith, length-word s)

length-after_greater : (s : List ℕ) → length (after_greater s).rest ≤ length s
unfolding after_greater
length-after_greater [] = omega arith
length-after_greater (c ∷ s) = ground arith

length-token_at : (s : List ℕ) → length (token_at s).rest ≤ length s
unfolding token_at
length-token_at [] = omega arith
length-token_at (c ∷ s) = ground (arith, length-after_greater s, length-word (c ∷ s))

pub length-gettoken : (s : List ℕ) → length (gettoken s).rest ≤ length s
unfolding gettoken
length-gettoken s = omega (
  arith,
  length-skip_space (token_at (skip_space s)).rest,
  length-token_at (skip_space s),
  length-skip_space s,
)

-- Behind a symbol less is left.
token_at-shorter :
    (c : ℕ) (s : List ℕ) → has symbols c ≡ true → length (token_at (c ∷ s)).rest ≤ length s
unfolding token_at
token_at-shorter c s e = ground (arith, e, length-after_greater s)

skip_space-skip_space : (s : List ℕ) → skip_space (skip_space s) ≡ skip_space s
unfolding skip_space
skip_space-skip_space [] = refl
skip_space-skip_space (c ∷ s) = elim (Bool-cases (has whitespace c)) [
  | inl e ↦ rw e (skip_space-skip_space s)
  | inr e ↦ rw e (rw e refl)
]

-- The sets of tokens that the parser looks for are symbols.
abbrev pub AreSymbols : List ℕ → Type 0
AreSymbols toks = (c : ℕ) → has toks c ≡ true → has symbols c ≡ true

starts_symbol :
    (toks : List ℕ) (s : List ℕ)
    → AreSymbols toks
    → starts toks s ≡ true
    → length (token_at s).rest < length s
unfolding starts
starts_symbol toks [] sub e = absurd (ground (arith, e))
starts_symbol toks (c ∷ s) sub e = omega (arith, token_at-shorter c s (sub c e))

-- A token that `peek` has seen is taken.
pub taken-shorter :
    (toks : List ℕ) (s : List ℕ)
    → AreSymbols toks
    → (peek toks s).0 ≡ true
    → length (gettoken (peek toks s).1).rest < length s
unfolding gettoken peek
taken-shorter toks s sub e = omega (
  arith,
  length-skip_space (token_at (skip_space (skip_space s))).rest,
  ap (λ t. length (token_at t).rest) (skip_space-skip_space s),
  starts_symbol toks (skip_space s) sub e,
  length-skip_space s,
)

pub length-peek : (toks s : List ℕ) → length (peek toks s).1 ≤ length s
unfolding peek
length-peek toks s = length-skip_space s

pub angles : AreSymbols (60 ∷ 62 ∷ [])
unfolding has
angles c e = ground (arith, e)

pub single : (a : ℕ) → has symbols a ≡ true → AreSymbols (a ∷ [])
unfolding has
single a h c e = ground (arith, e, h)
