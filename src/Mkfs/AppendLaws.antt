-- ===== src/Mkfs/AppendLaws.antt =====
-- The counters of the blocks that `iappend` of mkfs.c takes, and the words of an inode.
use assignment.Prelude.{
  get_elem?, ℕ, zero, suc, ◌+◌, ◌%◌, ◌^◌, ◌<◌, ◌≡◌, inl, inr, refl, ap, List, [], ◌∷◌, some, arith,
  ◌==◌, Bool-cases, modify,
}
use assignment.Fs.Block.{put32, get32-put32}
use assignment.Fs.Dinode.{Dinode, AreWords}
use assignment.Mkfs.Image.{Image, xint}
use assignment.Mkfs.Append.{use_block, addr_at, ensure_addr}

-- On a little-endian host the conversion changes no word.
pub xint_id : (x : ℕ) → x < 4294967296 → xint x ≡ x
unfolding xint
xint_id x lt = get32-put32 0 x (λ a. 0) lt

xint_lt : (x : ℕ) → xint x < 4294967296
unfolding xint put32
xint_lt x = ground arith

-- The two counters of blocks agree.
abbrev pub IsBalanced : Image → Type 0
IsBalanced m = m.freeblock ≡ m.usedblocks

pub use_block-IsBalanced : (m : Image) → IsBalanced m → IsBalanced (use_block m)
unfolding use_block
use_block-IsBalanced m e = ap (λ k. (k + 1) % 2 ^ 32) e

pub AreWords-modify :
    (ws : List ℕ) (n v : ℕ) → AreWords ws → v < 4294967296 → AreWords (modify ws n (λ _. v))
AreWords-modify [] n v fit lt = tt
AreWords-modify (w ∷ ws) zero v fit lt = (lt, fit.1)
AreWords-modify (w ∷ ws) (suc n) v fit lt = (fit.0, AreWords-modify ws n v fit.1 lt)

pub AreWords-at : (ws : List ℕ) (n a : ℕ) → AreWords ws → get_elem? ws n ≡ some a → a < 4294967296
AreWords-at [] n a fit e = absurd (ground (arith, e))
AreWords-at (w ∷ ws) zero a fit e = ground (arith, e, fit.0)
AreWords-at (w ∷ ws) (suc n) a fit e = AreWords-at ws n a fit.1 e

pub modify_same : (ws : List ℕ) (n a : ℕ) → get_elem? ws n ≡ some a → modify ws n (λ _. a) ≡ ws
modify_same [] n a e = refl
modify_same (w ∷ ws) zero a e = ground (arith, e)
modify_same (w ∷ ws) (suc n) a e = ap (λ l. w ∷ l) (modify_same ws n a e)

pub ensure_addr-IsBalanced :
    (n : ℕ) (din : Dinode) (m : Image) → IsBalanced m → IsBalanced (ensure_addr n din m).1
unfolding ensure_addr
ensure_addr-IsBalanced n din m b = elim (Bool-cases (xint (addr_at n din) == 0)) [
  | inl e ↦ rw e (use_block-IsBalanced m b)
  | inr e ↦ rw e b
]
