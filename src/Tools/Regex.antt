-- ===== src/Tools/Regex.antt =====
-- grep.c, `match`, `matchhere` and `matchstar`. A C string is the list of its bytes without the
-- zero at its end, so `*text == '\0'` is the empty list.
use assignment.Prelude.{ℕ, Bool, true, false, ◌&&◌, ◌||◌, List, [], ◌∷◌, ◌==◌, if◌then◌else◌}

abbrev pub caret : ℕ
caret = 94

abbrev pub dollar : ℕ
dollar = 36

abbrev pub asterisk : ℕ
asterisk = 42

abbrev pub dot : ℕ
dot = 46

-- `c == '.' || c == *text`
unfoldable pub accepts : ℕ → ℕ → Bool
accepts c t = c == dot || c == t

abbrev pub is_empty : List ℕ → Bool
is_empty [] = true
is_empty (t ∷ text) = false

-- The loop of `matchstar(c, re, text)`, where `rest` is `matchhere(re, ...)`.
unfoldable pub star_loop : (List ℕ → Bool) → ℕ → List ℕ → Bool
star_loop rest c [] = rest []
star_loop rest c (t ∷ text) =
    let onward = star_loop rest c text in
    if rest (t ∷ text) then true else if accepts c t then onward else false

-- The last test of `matchhere`, where `rest` is `matchhere(re+1, ...)`.
unfoldable pub one_byte : (List ℕ → Bool) → ℕ → List ℕ → Bool
one_byte rest c [] = false
one_byte rest c (t ∷ text) = accepts c t && rest text

unfoldable pub matchhere : List ℕ → List ℕ → Bool
matchhere [] text = true
matchhere (c ∷ []) text = if c == dollar then is_empty text else one_byte (matchhere []) c text
matchhere (c ∷ d ∷ re) text =
    let starred = star_loop (matchhere re) c text in
    let single = one_byte (matchhere (d ∷ re)) c text in if d == asterisk then starred else single

-- `matchstar`
unfoldable pub matchstar : ℕ → List ℕ → List ℕ → Bool
matchstar c re text = star_loop (matchhere re) c text

-- The loop of `match`: every suffix of the text, the empty one too.
unfoldable pub search_from : List ℕ → List ℕ → Bool
search_from re [] = matchhere re []
search_from re (t ∷ text) =
    let onward = search_from re text in if matchhere re (t ∷ text) then true else onward

-- `match`
unfoldable pub match : List ℕ → List ℕ → Bool
match [] text = search_from [] text
match (c ∷ re) text = if c == caret then matchhere re text else search_from (c ∷ re) text
