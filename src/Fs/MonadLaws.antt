-- ===== src/Fs/MonadLaws.antt =====
-- Postconditions of the operations of fs.c.
use assignment.Prelude.{ℕ, ◌≡◌, refl, ap, Option, some, get_elem?}
use assignment.Fs.Monad.{Inode, Fs, Result, ok, sleeps, panics, M, ◌>>=◌, inode, lift}

-- What holds of a result that returns.
abbrev pub Ensures {κ} : {A : Type 0} → (A → Fs → Type κ) → Result A → Type κ
Ensures P (ok a s) = P a s
Ensures P (sleeps ip s) = Unit
Ensures P panics = Unit

pub Ensures-bind {κ} :
    {A B : Type 0} (P : B → Fs → Type κ) (m : M A) (f : A → M B) (s : Fs)
    → ((a : A) (t : Fs) → m s ≡ ok a t → Ensures P (f a t))
    → Ensures P ((m >>= f) s)
Ensures-bind {A} P m f s h = go (m s) refl
  where
    go :
        (r : Result A)
        → m s ≡ r
        → Ensures P (elim r [ ok a t ↦ f a t | sleeps ip t ↦ sleeps ip t | panics ↦ panics ])
    go (ok a t) e = h a t e
    go (sleeps ip t) e = tt
    go panics e = tt

-- From the postcondition of a part.
pub Ensures-then {κ λ'} :
    {A B : Type 0} (Q : A → Fs → Type κ) (P : B → Fs → Type λ') (m : M A) (f : A → M B) (s : Fs)
    → Ensures Q (m s)
    → ((a : A) (t : Fs) → Q a t → Ensures P (f a t))
    → Ensures P ((m >>= f) s)
Ensures-then {A} Q P m f s q h = go (m s) q
  where
    go :
        (r : Result A)
        → Ensures Q r
        → Ensures P (elim r [ ok a t ↦ f a t | sleeps ip t ↦ sleeps ip t | panics ↦ panics ])
    go (ok a t) e = h a t e
    go (sleeps ip t) e = tt
    go panics e = tt

pub inode_at :
    {A : Type 0} (ip : ℕ) (x : Inode) (s : Fs) (f : Inode → M A)
    → get_elem? s.icache ip ≡ some x
    → (inode ip >>= f) s ≡ f x s
inode_at ip x s f at = ap (λ (o : Option Inode). (lift o >>= f) s) at

-- An operation that returns, and the rest.
pub returns_then :
    {A B : Type 0} (m : M A) (f : A → M B) (s t : Fs) (a : A) → m s ≡ ok a t → (m >>= f) s ≡ f a t
returns_then {A} m f s t a e =
    ap (λ (r : Result A). elim r [ ok a t ↦ f a t | sleeps ip t ↦ sleeps ip t | panics ↦ panics ]) e

pub lift_at :
    {A B : Type 0} (o : Option A) (a : A) (f : A → M B) (s : Fs)
    → o ≡ some a
    → (lift o >>= f) s ≡ f a s
lift_at o a f s e = returns_then (lift o) f s s a (ap (λ o. lift o s) e)
