-- ===== src/Mkfs/RoundLaws.antt =====
-- One round of `iappend` of mkfs.c in a direct block, and the write of an inode.
use assignment.Prelude.{
  get_elem?, get_elem?-modify_self, true, if◌then◌else◌, ◌≢◌, ℕ, zero, suc, ◌+◌, ◌-◌, ◌*◌, ◌/◌, ◌%◌,
  ◌≤◌, ◌<◌, ◌≡◌, ◌⊎◌, inl, inr, refl, ap, ◌∙◌, List, [], ◌∷◌, some, arith, ◌==◌, ltb, Bool-cases,
  ==_refl, if_true, length, drop, take, modify,
}
use assignment.Fs.Block.{Block, update}
use assignment.Fs.Dinode.{Dinode, IsDinode, read_dinode, write_dinode, read-write_dinode}
use assignment.Fs.Map.{ndirect, nindirect}
use assignment.Fs.File.{min, overwrite}
use assignment.Mkfs.Image.{Image, xint, wsect, rsect, i2b, dinode_offset, winode, rinode}
use assignment.Mkfs.Append.{use_block, addr_at, ensure_addr, block_of, append_from}
use assignment.Mkfs.AppendLaws.{xint_id, modify_same}

-- The block of the file at an address: the next free one where the address is 0.
abbrev pub block_for : ℕ → Image → ℕ
block_for a m = if a == 0 then m.freeblock else a

-- The image when that block has been handed out.
abbrev pub handed_out : ℕ → Image → Image
handed_out a m = if a == 0 then use_block m else m

abbrev pub with_block : ℕ → ℕ → Dinode → Dinode
with_block n x din = record din { addrs = modify (din.addrs) n (λ _. x) }

pub block_for_lt :
    (a : ℕ) (m : Image) → a < 4294967296 → m.freeblock < 4294967296 → block_for a m < 4294967296
block_for_lt a m fits free = ground (arith, fits, free)

ensure_addr_lem :
    (n a : ℕ) (din : Dinode) (m : Image)
    → get_elem? din.addrs n ≡ some a
    → a < 4294967296
    → m.freeblock < 4294967296
    → ensure_addr n din m ≡ (with_block n (block_for a m) din, handed_out a m)
unfolding ensure_addr
ensure_addr_lem n a din m at fits free =
    let here : xint (addr_at n din) ≡ a = rw (at, addr_at) (xint_id a fits) in
    let word : xint m.freeblock ≡ m.freeblock = xint_id m.freeblock free in
    elim (Bool-cases (a == 0)) [
      | inl e ↦ ground (arith, here, word, e)
      | inr e ↦ ground (arith, here, e, modify_same din.addrs n a at)
    ]

-- A direct block.
pub block_of_direct :
    (fbn a : ℕ) (din : Dinode) (m : Image)
    → fbn < 12
    → get_elem? din.addrs fbn ≡ some a
    → a < 4294967296
    → m.freeblock < 4294967296
    → block_of fbn din m ≡ some (block_for a m, with_block fbn (block_for a m) din, handed_out a m)
unfolding block_of
block_of_direct fbn a din m lt at fits free =
    let low : ltb fbn (ndirect + nindirect) ≡ true = ground (arith, lt) in
    let direct : ltb fbn ndirect ≡ true = ground (arith, lt) in
    let x = block_for a m in
    let found : xint (addr_at fbn (with_block fbn x din)) ≡ x =
      rw (get_elem?-modify_self din.addrs fbn (λ _. x) at, addr_at)
        (xint_id x (block_for_lt a m fits free)) in
    rw (low, direct, block_of)
      (ap (λ (r : Dinode × Image). some (xint (addr_at fbn r.0), r.0, r.1))
          (ensure_addr_lem fbn a din m at fits free)
        ∙ ap (λ y. some (y, with_block fbn x din, handed_out a m)) found)

take_whole : (n : ℕ) (p : List ℕ) → length p ≤ n → take n p ≡ p
take_whole zero [] le = refl
take_whole zero (c ∷ p) le = absurd (omega (arith, le))
take_whole (suc n) [] le = refl
take_whole (suc n) (c ∷ p) le = ap (λ l. c ∷ l) (take_whole n p (omega (arith, le)))

drop_whole : (n : ℕ) (p : List ℕ) → length p ≤ n → drop n p ≡ []
drop_whole zero [] le = refl
drop_whole zero (c ∷ p) le = absurd (omega (arith, le))
drop_whole (suc n) [] le = refl
drop_whole (suc n) (c ∷ p) le = drop_whole n p (omega (arith, le))

-- One round of the loop of `iappend`, with bytes that stay within the block.
pub append_round :
    (fuel off x c : ℕ) (p : List ℕ) (din din' : Dinode) (m m' : Image) (buf : Block)
    → block_of (off / 512) din m ≡ some (x, din', m')
    → rsect x m' ≡ some buf
    → off % 512 + suc (length p) ≤ 512
    → append_from (suc (suc fuel)) off (c ∷ p) din m
      ≡ some (off + suc (length p), din', wsect x (overwrite (off % 512) (c ∷ p) buf) m')
unfolding append_from
append_round fuel off x c p din din' m m' buf block read room =
    let n1 : min (suc (length p)) ((off / 512 + 1) * 512 - off) ≡ suc (length p) =
      ground (arith, room) in
    let start : off - off / 512 * 512 ≡ off % 512 = omega arith in
    rw (block, append_from)
      (rw (read, n1, start)
        (rw
          (
            drop_whole (suc (length p)) (c ∷ p) (omega arith),
            take_whole (suc (length p)) (c ∷ p) (omega arith),
          )
          (ap (λ n. some (off + n, din', wsect x (overwrite (off % 512) (c ∷ p) buf) m')) n1)))

pub overwrite-outside :
    (o : ℕ) (p : List ℕ) (b : Block) (a : ℕ)
    → (a < o) ⊎ (o + length p ≤ a)
    → overwrite o p b a ≡ b a
unfolding overwrite
overwrite-outside o [] b a out = refl
overwrite-outside o (c ∷ p) b a out =
    overwrite-outside (o + 1) p (update b o c) a (ground (arith, out)) ∙ ground (arith, out)

pub overwrite-at :
    (o : ℕ) (p : List ℕ) (b : Block) (k c : ℕ)
    → get_elem? p k ≡ some c
    → overwrite o p b (o + k) ≡ c
unfolding overwrite
overwrite-at o [] b k c e = absurd (ground (arith, e))
overwrite-at o (d ∷ p) b zero c e =
    overwrite-outside (o + 1) p (update b o d) (o + 0) (inl (omega arith)) ∙ ground (arith, e)
overwrite-at o (d ∷ p) b (suc k) c e =
    let s : o + suc k ≡ o + 1 + k = omega arith in
    ap (λ a. overwrite (o + 1) p (update b o d) a) s ∙ overwrite-at (o + 1) p (update b o d) k c e

-- The inode that `winode` wrote is the one that `rinode` reads, if its fields fit their types; no
-- other sector changes.
pub winode_lem :
    (inum : ℕ) (din : Dinode) (m : Image)
    → IsDinode din
    → i2b inum < m.sectors
    → (m' : Image) × (winode inum din m ≡ some m')
      × (rinode inum m' ≡ some din)
      × ((t : ℕ) → t ≢ i2b inum → m'.disk t ≡ m.disk t)
      × (m'.sectors ≡ m.sectors)
      × (m'.freeblock ≡ m.freeblock)
      × (m'.usedblocks ≡ m.usedblocks)
unfolding winode rinode wsect rsect
winode_lem inum din m d there =
    let b = i2b inum in
    let here : ltb b m.sectors ≡ true = ground (arith, there) in
    let buf = write_dinode (dinode_offset inum) din (m.disk b) in
    (
      record m {
        disk = update (m.disk) b buf;
        sectors = if ltb b m.sectors then m.sectors else b + 1;
      },
      rw here refl,
      rw (here, here)
          (ap some (
            ap (read_dinode (dinode_offset inum)) (if_true _ _ (==_refl b))
            ∙ read-write_dinode (dinode_offset inum) din (m.disk b) d)),
      λ t ne. ground (arith, ne),
      rw here refl,
      refl,
      refl,
    )
