-- ===== src/Prelude/Distinct.antt =====
-- Lists of numbers that have none twice.
use Prim.Native.Nat.{ℕ}
use mathlib.Core.Path.{sym, subst}
use mathlib.Core.Logic.{◌≢◌}
use mathlib.Core.List.{List, [], ◌∷◌, ◌++◌}
use assignment.Prelude.Lists.{append_nil}

abbrev pub Avoids : ℕ → List ℕ → Type 0
Avoids a [] = Unit
Avoids a (x ∷ xs) = (a ≢ x) × Avoids a xs

abbrev pub IsDistinct : List ℕ → Type 0
IsDistinct [] = Unit
IsDistinct (x ∷ xs) = Avoids x xs × IsDistinct xs

pub Avoids-append : (a : ℕ) (xs ys : List ℕ) → Avoids a (xs ++ ys) → Avoids a xs × Avoids a ys
Avoids-append a [] ys h = (tt, h)
Avoids-append a (x ∷ xs) ys (ne, h) = let r = Avoids-append a xs ys h in ((ne, r.0), r.1)

pub Avoids-both : (a : ℕ) (xs ys : List ℕ) → Avoids a xs → Avoids a ys → Avoids a (xs ++ ys)
Avoids-both a [] ys g h = h
Avoids-both a (x ∷ xs) ys (ne, g) h = (ne, Avoids-both a xs ys g h)

-- Without its middle a list stays distinct, and the middle is in none of the parts.
pub IsDistinct-middle :
    (xs : List ℕ) (b : ℕ) (ys : List ℕ)
    → IsDistinct (xs ++ (b ∷ ys))
    → IsDistinct (xs ++ ys) × Avoids b xs × Avoids b ys
IsDistinct-middle [] b ys (h, d) = (d, tt, h)
IsDistinct-middle (x ∷ xs) b ys (h, d) =
    let (d', bx, by) = IsDistinct-middle xs b ys d in
    let (hx, (ne, hy)) = Avoids-append x xs (b ∷ ys) h in
    ((Avoids-both x xs ys hx hy, d'), (λ e. ne (sym e), bx), by)

pub IsDistinct-left : (xs ys : List ℕ) → IsDistinct (xs ++ ys) → IsDistinct xs
IsDistinct-left [] ys d = tt
IsDistinct-left (x ∷ xs) ys (h, d) = ((Avoids-append x xs ys h).0, IsDistinct-left xs ys d)

-- One element more in the middle.
IsDistinct-insert :
    (xs : List ℕ) (b : ℕ) (ys : List ℕ)
    → IsDistinct (xs ++ ys)
    → Avoids b xs
    → Avoids b ys
    → IsDistinct (xs ++ (b ∷ ys))
IsDistinct-insert [] b ys d ax ay = (ay, d)
IsDistinct-insert (x ∷ xs) b ys (h, d) (ne, ax) ay =
    let (hx, hy) = Avoids-append x xs ys h in
    (Avoids-both x xs (b ∷ ys) hx (λ e. ne (sym e), hy), IsDistinct-insert xs b ys d ax ay)

pub IsDistinct-swap : (xs ys : List ℕ) → IsDistinct (xs ++ ys) → IsDistinct (ys ++ xs)
IsDistinct-swap [] ys d = subst IsDistinct (sym (append_nil ys)) d
IsDistinct-swap (x ∷ xs) ys (h, d) =
    let (hx, hy) = Avoids-append x xs ys h in
    IsDistinct-insert ys x xs (IsDistinct-swap xs ys d) hy hx
