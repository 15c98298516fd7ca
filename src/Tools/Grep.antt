-- ===== src/Tools/Grep.antt =====
-- grep.c, `grep`: the lines of a file that its matcher selects. `none` is an access outside `buf`.
use assignment.Prelude.{
  ℕ, zero, suc, ◌+◌, ◌-◌, List, [], ◌∷◌, ◌++◌, Option, none, some, ℤ, pos, negsuc, ◌==◌, leb, sub_ℕ,
  if◌then◌else◌, length, take, drop, modify, replicate,
}
use assignment.Text.Ulib.{strchr}
use assignment.Tools.Regex.{match}

abbrev pub newline : ℕ
newline = 10

-- sizeof(buf)
abbrev pub buf_size : ℕ
buf_size = 1024

-- What is written, `p` as an offset, and `buf`.
abbrev pub Scanned : Type 0
Scanned = List (List ℕ) × ℕ × List ℕ

abbrev pub written : List ℕ → Option Scanned → Option Scanned
written line none = none
written line (some (out, p, buf)) = some (line ∷ out, p, buf)

-- One round of the inner loop with `q` at `p + i`: the newline is replaced by a zero, and comes back
-- only if the line is selected. `next` is the rest of the loop.
unfoldable pub one_line : List ℕ → ℕ → ℕ → List ℕ → (List ℕ → Option Scanned) → Option Scanned
one_line re p i buf next =
    let line = take i (drop p buf) in
    if match re line
    then written (line ++ (newline ∷ [])) (next buf)
    else next (modify buf (p + i) (λ _. 0))

-- The inner loop, from `p` on.
unfoldable pub lines_from : ℕ → List ℕ → ℕ → List ℕ → Option Scanned
lines_from zero re p buf = none
lines_from (suc n) re p buf = elim (strchr (drop p buf) newline) [
  | none ↦ none
  | some none ↦ some ([], p, buf)
  | some (some i) ↦ one_line re p i buf (lines_from n re (p + i + 1))
]

-- The bytes of one `read`, stored from `m` on.
unfoldable pub place : ℕ → List ℕ → List ℕ → List ℕ
place m chunk [] = []
place zero [] (d ∷ buf) = d ∷ buf
place zero (c ∷ chunk) (d ∷ buf) = c ∷ place zero chunk buf
place (suc m) chunk (d ∷ buf) = d ∷ place m chunk buf

-- The end of a round with `p` and `m` bytes in `buf`: the bytes from `p` on move to the front.
unfoldable pub keep_rest : ℕ → ℕ → List ℕ → ℤ × List ℕ
keep_rest p m buf =
    if p == 0
    then (pos 0, buf)
    else (if m == 0
        then (pos 0, buf)
        else (sub_ℕ m p, if leb p m then place 0 (take (m - p) (drop p buf)) buf else buf))

-- `grep` with `m` bytes in `buf`. The list has the bytes of each `read`, at most those asked for,
-- and its end is a `read` that gives none.
unfoldable pub grep_from : List ℕ → List (List ℕ) → ℤ × List ℕ → Option (List (List ℕ))
grep_from re [] (m, buf) = some []
grep_from re (chunk ∷ reads) (negsuc m, buf) = none
grep_from re (chunk ∷ reads) (pos m, buf) =
    elim (lines_from (suc buf_size) re 0 (place m chunk buf)) [
      | none ↦ none
      | some (out, p, buf') ↦ elim (grep_from re reads (keep_rest p (m + length chunk) buf')) [
        | none ↦ none
        | some more ↦ some (out ++ more)
      ]
    ]

unfoldable pub grep : List ℕ → List (List ℕ) → Option (List (List ℕ))
grep re reads = grep_from re reads (pos 0, replicate buf_size 0)
