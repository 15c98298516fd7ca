-- ===== src/CString.antt =====
-- string.c: the functions on C strings that the process code calls. A buffer is the list of its
-- bytes; `none` is an access outside it.
use assignment.Memory.{difference}
use assignment.Prelude.{
  ℕ, zero, suc, ◌&&◌, not, ℤ, pos, List, [], ◌∷◌, Option, none, some, ◌==◌, if◌then◌else◌,
}

-- `*s = 0` at the head of what is left of the buffer.
abbrev terminate : List ℕ → Option (List ℕ)
terminate [] = none
terminate (d ∷ s) = some (0 ∷ s)

abbrev put_before : ℕ → Option (List ℕ) → Option (List ℕ)
put_before c none = none
put_before c (some s) = some (c ∷ s)

-- The loop of `safestrcpy` with `n` bytes of the buffer left, `n` from 1 on. A copied zero ends it,
-- and one more zero is written behind it.
unfoldable pub copy_from : ℕ → List ℕ → List ℕ → Option (List ℕ)
copy_from zero s t = some s
copy_from (suc zero) s t = terminate s
copy_from (suc (suc n)) [] t = none
copy_from (suc (suc n)) (d ∷ s) [] = none
copy_from (suc (suc n)) (d ∷ s) (c ∷ t) =
    let rest = copy_from (suc n) s t in
    if c == 0 then put_before c (terminate s) else put_before c rest

-- `safestrcpy`
unfoldable pub safestrcpy : List ℕ → List ℕ → ℕ → Option (List ℕ)
safestrcpy s t n = copy_from n s t

-- `strlen`
unfoldable pub strlen : List ℕ → Option ℕ
strlen [] = none
strlen (c ∷ s) =
    let rest = strlen s in
    if c == 0 then some 0 else elim rest [ none ↦ none | some n ↦ some (suc n) ]

-- `while(n-- > 0) *s++ = 0;`
unfoldable pub pad : ℕ → List ℕ → Option (List ℕ)
pad zero s = some s
pad (suc n) [] = none
pad (suc n) (d ∷ s) = put_before 0 (pad n s)

-- `strncpy`: a copied zero ends the first loop, and the second fills the rest.
unfoldable pub strncpy : List ℕ → List ℕ → ℕ → Option (List ℕ)
strncpy s t zero = some s
strncpy [] t (suc n) = none
strncpy (d ∷ s) [] (suc n) = none
strncpy (d ∷ s) (c ∷ t) (suc n) =
    let rest = strncpy s t n in if c == 0 then put_before 0 (pad n s) else put_before c rest

-- `strncmp`, on bytes
unfoldable pub strncmp : List ℕ → List ℕ → ℕ → Option ℤ
strncmp p q zero = some (pos 0)
strncmp [] q (suc n) = none
strncmp (a ∷ p) [] (suc n) = none
strncmp (a ∷ p) (b ∷ q) (suc n) =
    let rest = strncmp p q n in if not (a == 0) && a == b then rest else some (difference a b)
