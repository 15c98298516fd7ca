-- ===== src/Shell/Token.antt =====
-- `gettoken` and `peek` (sh.c). What is left of the input, from `*ps` up to `es`, is a list of characters
-- that are not 0; at its end stands a 0.
use assignment.Prelude.{ℕ, Bool, true, false, ◌||◌, List, [], ◌∷◌, ◌==◌, if◌then◌else◌}

-- `strchr(set, c)` with `c` not 0
unfoldable pub has : List ℕ → ℕ → Bool
has [] c = false
has (a ∷ set) c = if a == c then true else has set c

-- " \t\r\n\v" and "<|>&;()"
abbrev pub whitespace : List ℕ
whitespace = 32 ∷ 9 ∷ 13 ∷ 10 ∷ 11 ∷ []

abbrev pub symbols : List ℕ
symbols = 60 ∷ 124 ∷ 62 ∷ 38 ∷ 59 ∷ 40 ∷ 41 ∷ []

-- `while(s < es && strchr(whitespace, *s)) s++;`
unfoldable pub skip_space : List ℕ → List ℕ
skip_space [] = []
skip_space (c ∷ s) = let rest = skip_space s in if has whitespace c then rest else c ∷ s

-- The loop over the characters of a word: the word and what is left.
unfoldable pub word : List ℕ → List ℕ × List ℕ
word [] = ([], [])
word (c ∷ s) =
    let rest = word s in
    if has whitespace c || has symbols c then ([], c ∷ s) else (c ∷ rest.0, rest.1)

-- A token: what `gettoken` returns, the characters from `q` to `eq`, and what is left.
pub record Token : Type 0 where
  pub kind : ℕ
  pub text : List ℕ
  pub rest : List ℕ

-- A '>', or '>>', whose kind is '+'.
unfoldable pub after_greater : List ℕ → Token
after_greater [] = record { kind = 62; text = 62 ∷ []; rest = [] }
after_greater (c ∷ s) =
    if c == 62
    then record { kind = 43; text = 62 ∷ 62 ∷ []; rest = s }
    else record { kind = 62; text = 62 ∷ []; rest = c ∷ s }

-- The `switch` of `gettoken`, at a character that is not white space.
unfoldable pub token_at : List ℕ → Token
token_at [] = record { kind = 0; text = []; rest = [] }
token_at (c ∷ s) =
    if c == 62
    then after_greater s
    else (if has symbols c
        then record { kind = c; text = c ∷ []; rest = s }
        else record { kind = 97; text = (word (c ∷ s)).0; rest = (word (c ∷ s)).1 })

unfoldable pub gettoken : List ℕ → Token
gettoken s = let t = token_at (skip_space s) in record t { rest = skip_space (t.rest) }

-- `*s && strchr(toks, *s)`
unfoldable pub starts : List ℕ → List ℕ → Bool
starts toks [] = false
starts toks (c ∷ s) = has toks c

-- `peek`: whether the input goes on with one of `toks`; it moves over the white space.
unfoldable pub peek : List ℕ → List ℕ → Bool × List ℕ
peek toks s = (starts toks (skip_space s), skip_space s)
