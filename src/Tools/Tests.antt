-- ===== src/Tools/Tests.antt =====
-- The theorems on the matcher and the counter at small texts, and runs of `grep` and `fmtname`.
use assignment.Prelude.{ℕ, ◌≡◌, refl, true, List, [], ◌∷◌, some, replicate}
use assignment.Text.Ulib.{strchr}
use assignment.Tools.Regex.{accepts, star_loop, one_byte, matchhere, search_from, match}
use assignment.Tools.RegexLaws.{Selects, match_iff}
use assignment.Tools.Grep.{one_line, lines_from, place, keep_rest, grep_from, grep}
use assignment.Tools.Count.{last_name, fmtname}

-- "^ab*.c$"
abbrev pattern_text : List ℕ
pattern_text = 94 ∷ 97 ∷ 98 ∷ 42 ∷ 46 ∷ 99 ∷ 36 ∷ []

-- "abbxc"
abbrev line_text : List ℕ
line_text = 97 ∷ 98 ∷ 98 ∷ 120 ∷ 99 ∷ []

match-selected : match pattern_text line_text ≡ true
unfolding match matchhere star_loop one_byte search_from accepts
match-selected = refl

match_iff_example : Selects pattern_text line_text
match_iff_example = (match_iff pattern_text line_text).0 match-selected

-- "b" in "ab\nc\n": the first line.
grep-selected :
    grep (98 ∷ []) ((97 ∷ 98 ∷ 10 ∷ 99 ∷ 10 ∷ []) ∷ []) ≡ some ((97 ∷ 98 ∷ 10 ∷ []) ∷ [])
unfolding grep grep_from lines_from one_line place keep_rest strchr match matchhere star_loop
    one_byte search_from accepts
grep-selected = refl

-- After a read of "ab\ncd\n" and one of "x\n" the pattern "." selects the line "cd" twice.
grep-stale :
    grep (46 ∷ []) ((97 ∷ 98 ∷ 10 ∷ 99 ∷ 100 ∷ 10 ∷ []) ∷ (120 ∷ 10 ∷ []) ∷ [])
    ≡ some
        ((97 ∷ 98 ∷ 10 ∷ []) ∷ (99 ∷ 100 ∷ 10 ∷ []) ∷ (120 ∷ 10 ∷ []) ∷ (99 ∷ 100 ∷ 10 ∷ []) ∷ [])
unfolding grep grep_from lines_from one_line place keep_rest strchr match matchhere star_loop
    one_byte search_from accepts
grep-stale = refl

-- A line in two reads loses its first part.
grep-lost : grep (97 ∷ []) ((97 ∷ []) ∷ (98 ∷ 10 ∷ []) ∷ []) ≡ some []
unfolding grep grep_from lines_from one_line place keep_rest strchr match matchhere star_loop
    one_byte search_from accepts
grep-lost = refl

-- "/a/bc" is padded.
fmtname-padded : fmtname (47 ∷ 97 ∷ 47 ∷ 98 ∷ 99 ∷ []) ≡ 98 ∷ 99 ∷ replicate 12 32
unfolding fmtname last_name
fmtname-padded = refl
