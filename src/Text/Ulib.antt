-- ===== src/Text/Ulib.antt =====
-- The functions on strings and memory of ulib.c. A buffer is the list of its bytes; `none` is an access
-- outside it. `strlen` is that of string.c.
use assignment.Prelude.{
  ℕ, zero, suc, ◌-◌, ◌&&◌, ◌||◌, not, List, [], ◌∷◌, Option, none, some, ℤ, ◌==◌, if◌then◌else◌,
}
use assignment.Memory.{Memory, difference, copy_up}

unfoldable pub strcpy : List ℕ → List ℕ → Option (List ℕ)
strcpy [] t = none
strcpy (d ∷ s) [] = none
strcpy (d ∷ s) (c ∷ t) =
    let rest = strcpy s t in
    if c == 0 then some (0 ∷ s) else elim rest [ none ↦ none | some s' ↦ some (c ∷ s') ]

unfoldable pub strcmp : List ℕ → List ℕ → Option ℤ
strcmp [] q = none
strcmp (a ∷ p) [] = none
strcmp (a ∷ p) (b ∷ q) =
    let rest = strcmp p q in if not (a == 0) && a == b then rest else some (difference a b)

-- `strchr`: where in the string, or `some none` for a null pointer.
unfoldable pub strchr : List ℕ → ℕ → Option (Option ℕ)
strchr [] c = none
strchr (a ∷ s) c =
    let rest = strchr s c in
    if a == 0
    then some none
    else (if a == c then some (some 0) else elim rest [
      | none ↦ none
      | some r ↦ some (elim r [ none ↦ none | some i ↦ some (suc i) ])
    ])

-- The loop of `gets` with room for `n` more; the list is what `read` gives, one byte each, and its end
-- is a `read` that gives none.
unfoldable pub gets_from : ℕ → List ℕ → List ℕ × List ℕ
gets_from zero input = ([], input)
gets_from (suc n) [] = ([], [])
gets_from (suc n) (c ∷ input) =
    let rest = gets_from n input in
    if c == 10 || c == 13 then (c ∷ [], input) else (c ∷ rest.0, rest.1)

-- `gets` with `max` from 1 on: the characters before the zero, and what is left to read.
unfoldable pub gets : ℕ → List ℕ → List ℕ × List ℕ
gets max input = gets_from (max - 1) input

unfoldable pub user_memmove : ℕ → ℕ → ℕ → Memory → Memory
user_memmove dst src n m = copy_up n dst src m
