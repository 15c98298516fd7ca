-- ===== src/Prelude/Scan.antt =====
-- The C idiom `for (i = 0; i < N; i++) if (test(a[i])) break;` and counts over an array.
use Prim.Native.Nat.{ℕ, zero, suc, ◌+◌, ◌<◌, ◌≤◌}
use mathlib.Core.Path.{◌≡◌, refl}
use mathlib.Core.Logic.{inl, inr}
use mathlib.Core.Bool.{Bool, true, false}
use mathlib.Core.List.{List, [], ◌∷◌}
use mathlib.Core.Option.{Option, none, some}
use mathlib.Core.Option
use native.Mathlib.Omega.{arith}
use assignment.Prelude.Tests.{if◌then◌else◌, Bool-cases}
use assignment.Prelude.Lists.{length, get_elem?, modify}

module _ {ℓ} {A : Type ℓ} (p : A → Bool) where
  -- The first index whose element passes the test.
  abbrev pub find_index : List A → Option ℕ
  find_index [] = none
  find_index (x ∷ xs) = if p x then some 0 else Option.map suc (find_index xs)

  abbrev pub count_if : List A → ℕ
  count_if [] = 0
  count_if (x ∷ xs) = if p x then suc (count_if xs) else count_if xs

  pub find_index-some :
      (xs : List A) (i : ℕ)
      → find_index xs ≡ some i
      → (x : A) × (get_elem? xs i ≡ some x) × (p x ≡ true)
  find_index-some [] i h = ground arith
  find_index-some (x ∷ xs) zero h = (x, refl, ground arith)
  find_index-some (x ∷ xs) (suc i) h = find_index-some xs i (ground arith)

  pub find_index-before :
      (xs : List A) (i j : ℕ) (y : A)
      → find_index xs ≡ some i
      → j < i
      → get_elem? xs j ≡ some y
      → p y ≡ false
  find_index-before [] i j y h lt e = ground arith
  find_index-before (x ∷ xs) zero j y h lt e = absurd (omega arith)
  find_index-before (x ∷ xs) (suc i) zero y h lt e = ground arith
  find_index-before (x ∷ xs) (suc i) (suc j) y h lt e =
      find_index-before xs i j y (ground arith) (omega arith) e

  pub find_index-none :
      (xs : List A) (j : ℕ) (y : A) → find_index xs ≡ none → get_elem? xs j ≡ some y → p y ≡ false
  find_index-none [] j y h e = ground arith
  find_index-none (x ∷ xs) zero y h e = ground arith
  find_index-none (x ∷ xs) (suc j) y h e = find_index-none xs j y (ground arith) e

  -- A passing element is found, here or earlier.
  pub find_index-le :
      (xs : List A) (j : ℕ) (y : A)
      → get_elem? xs j ≡ some y
      → p y ≡ true
      → (i : ℕ) × (find_index xs ≡ some i) × (i ≤ j)
  find_index-le [] j y e t = ground arith
  find_index-le (x ∷ xs) zero y e t = (0, ground arith, omega arith)
  find_index-le (x ∷ xs) (suc j) y e t = elim (Bool-cases (p x)) [
    | inl q ↦ (0, rw q, omega arith)
    | inr q ↦ let (i, f, le) = find_index-le xs j y e t in (suc i, rw (q, f), omega arith)
  ]

  pub count_if-le : (xs : List A) → count_if xs ≤ length xs
  count_if-le [] = omega arith
  count_if-le (x ∷ xs) = ground (arith, count_if-le xs)

  pub count_if-pos :
      (xs : List A) (j : ℕ) (y : A) → get_elem? xs j ≡ some y → p y ≡ true → 0 < count_if xs
  count_if-pos [] j y e t = ground arith
  count_if-pos (x ∷ xs) zero y e t = ground arith
  count_if-pos (x ∷ xs) (suc j) y e t = ground (arith, count_if-pos xs j y e t)

  -- A nonzero count has an element behind it.
  pub count_if-find : (xs : List A) → 0 < count_if xs → (i : ℕ) × (find_index xs ≡ some i)
  count_if-find [] h = absurd (omega arith)
  count_if-find (x ∷ xs) h = elim (Bool-cases (p x)) [
    | inl q ↦ (0, rw q)
    | inr q ↦ let r = count_if-find xs (ground arith) in (suc r.0, rw (q, r.1))
  ]

  -- How a write at one index changes a count.
  pub count_if-modify :
      (xs : List A) (i : ℕ) (f : A → A) (x : A)
      → get_elem? xs i ≡ some x
      → count_if (modify xs i f) + (if p x then 1 else 0) ≡ count_if xs + (if p (f x) then 1 else 0)
  count_if-modify [] i f x e = ground arith
  count_if-modify (y ∷ xs) zero f x e = ground arith
  count_if-modify (y ∷ xs) (suc i) f x e = ground (arith, count_if-modify xs i f x e)

  pub count_if-modify_same :
      (xs : List A) (i : ℕ) (f : A → A)
      → ((x : A) → p (f x) ≡ p x)
      → count_if (modify xs i f) ≡ count_if xs
  count_if-modify_same [] i f h = refl
  count_if-modify_same (y ∷ xs) zero f h = rw (h y) refl
  count_if-modify_same (y ∷ xs) (suc i) f h = rw (count_if-modify_same xs i f h) refl
