-- ===== src/Mkfs/DirectLaws.antt =====
-- `iappend` of mkfs.c where the bytes fit into one direct block of the file.
use assignment.Prelude.{
  get_elem?, true, if◌then◌else◌, ◌≢◌, ℕ, suc, ◌+◌, ◌/◌, ◌%◌, ◌^◌, ◌≤◌, ◌<◌, ◌≡◌, ◌⊎◌, inl, inr,
  refl, ap, ◌∙◌, List, ◌∷◌, some, arith, ◌==◌, ltb, Bool-cases, length, modify, length-modify,
}
use assignment.Fs.Block.{Block, Blocks}
use assignment.Fs.Dinode.{Dinode, IsDinode}
use assignment.Fs.File.{overwrite}
use assignment.Mkfs.Image.{Image, xint, wsect, rsect, i2b, rinode}
use assignment.Mkfs.Append.{use_block, iappend}
use assignment.Mkfs.AppendLaws.{xint_id, AreWords-modify, AreWords-at}
use assignment.Mkfs.RoundLaws.{
  block_for, handed_out, with_block, block_for_lt, block_of_direct, append_round, overwrite-outside,
  overwrite-at, winode_lem,
}

-- What `iappend` makes of an image, for a file whose inode is `din`, with the bytes `p` that belong
-- into the block `x`.
pub record Appended (inum x : ℕ) (p : List ℕ) (din : Dinode) (m m' : Image) : Type 0 where
  pub inode :
      rinode inum m'
      ≡ some (record din {
        size = din.size + length p;
        addrs = modify (din.addrs) (din.size / 512) (λ _. x);
      })
  pub bytes : (k c : ℕ) → get_elem? p k ≡ some c → m'.disk x (din.size % 512 + k) ≡ c
  pub rest :
      (a : ℕ) → (a < din.size % 512) ⊎ (din.size % 512 + length p ≤ a) → m'.disk x a ≡ m.disk x a
  pub others : (t : ℕ) → t ≢ x → t ≢ inum / 8 + 2 → m'.disk t ≡ m.disk t
  pub same_size : m'.sectors ≡ m.sectors

rinode-inside :
    (inum : ℕ) (m : Image) (din : Dinode) → rinode inum m ≡ some din → i2b inum < m.sectors
unfolding rinode rsect
rinode-inside inum m din e = ground (arith, e)

ltb_yes : (x : ℕ) (m : Image) {n : ℕ} → x < n → m.sectors ≡ n → ltb x m.sectors ≡ true
ltb_yes x m lt e = ground (arith, lt, e)

wsect_size :
    (x : ℕ) (buf : Block) (m : Image) → ltb x m.sectors ≡ true → (wsect x buf m).sectors ≡ m.sectors
unfolding wsect
wsect_size x buf m e = rw e refl

rsect_inside : (x : ℕ) (m : Image) → ltb x m.sectors ≡ true → rsect x m ≡ some (m.disk x)
unfolding rsect
rsect_inside x m e = rw e refl

wsect_at : (x : ℕ) (buf : Block) (m : Image) (k : ℕ) → (wsect x buf m).disk x k ≡ buf k
unfolding wsect
wsect_at x buf m k = ground arith

wsect_counters :
    (x : ℕ) (buf : Block) (m : Image)
    → ((wsect x buf m).freeblock ≡ m.freeblock) × ((wsect x buf m).usedblocks ≡ m.usedblocks)
unfolding wsect
wsect_counters x buf m = (refl, refl)

i2b_lem : (inum : ℕ) → i2b inum ≡ inum / 8 + 2
unfolding i2b
i2b_lem inum = refl

wsect_other : (x : ℕ) (buf : Block) (m : Image) (t : ℕ) → t ≢ x → (wsect x buf m).disk t ≡ m.disk t
unfolding wsect
wsect_other x buf m t ne = ground (arith, ne)

module _ (inum a c : ℕ) (p : List ℕ) (din : Dinode) (m : Image)
    (at : get_elem? din.addrs (din.size / 512) ≡ some a)
    (room : din.size % 512 + suc (length p) ≤ 512) (direct : din.size < 6144) (d : IsDinode din)
    (free : m.freeblock < 4294967296) (there : block_for a m < m.sectors)
    (apart : block_for a m ≢ inum / 8 + 2) where
  abbrev final : Dinode
  final = record din {
    size = din.size + suc (length p);
    addrs = modify (din.addrs) (din.size / 512) (λ _. block_for a m);
  }

  fits : a < 4294967296
  fits = AreWords-at din.addrs (din.size / 512) a d.addrs_fit at

  final-IsDinode : IsDinode final
  final-IsDinode = record {
    type_fits = d.type_fits;
    major_fits = d.major_fits;
    minor_fits = d.minor_fits;
    nlink_fits = d.nlink_fits;
    size_fits = omega (arith, direct, room);
    addrs_fit =
        AreWords-modify din.addrs (din.size / 512) (block_for a m) d.addrs_fit
          (block_for_lt a m fits free);
    addrs_room = length-modify din.addrs (din.size / 512) _ ∙ d.addrs_room;
  }

  handed_same : ((handed_out a m).disk ≡ m.disk) × ((handed_out a m).sectors ≡ m.sectors)
  unfolding use_block
  handed_same = elim (Bool-cases (a == 0)) [ inl e ↦ rw e (refl, refl) | inr e ↦ rw e (refl, refl) ]

  handed_counters :
      ((handed_out a m).freeblock ≡ (if a == 0 then (m.freeblock + 1) % 2 ^ 32 else m.freeblock))
      × ((handed_out a m).usedblocks
          ≡ (if a == 0 then (m.usedblocks + 1) % 2 ^ 32 else m.usedblocks))
  unfolding use_block
  handed_counters = elim (Bool-cases (a == 0)) [
    | inl e ↦ rw e (refl, refl)
    | inr e ↦ rw e (refl, refl)
  ]

  -- If a file has an address `a` for the block at its end, 0 where the block is missing, `iappend` of bytes
  -- that fit into the rest of this block, one of the direct ones, does not stop. The block is the
  -- next free one if `a` is 0. The bytes stand behind the old ones in it, and the rest of it is as
  -- it was; the inode has the new size and the address of the block, no sector but the block's and
  -- the inode's changes, and the counters go up by one exactly if the block is new. The fields of the
  -- inode fit their types, the counter of free blocks fits a word, and the block is one of the image
  -- and not that of the inode.
  pub iappend_direct :
      rinode inum m ≡ some din
      → (m' : Image) × (iappend inum (c ∷ p) m ≡ some m')
        × Appended inum (block_for a m) (c ∷ p) din m m'
        × (m'.freeblock ≡ (if a == 0 then (m.freeblock + 1) % 2 ^ 32 else m.freeblock))
        × (m'.usedblocks ≡ (if a == 0 then (m.usedblocks + 1) % 2 ^ 32 else m.usedblocks))
  unfolding iappend
  iappend_direct read =
      let x = block_for a m in
      let o = din.size % 512 in
      let m1 = handed_out a m in
      let inside : ltb x m1.sectors ≡ true = ltb_yes x m1 there handed_same.1 in
      let m2 = wsect x (overwrite o (c ∷ p) (m1.disk x)) m1 in
      let apart_here : x ≢ i2b inum = λ e. apart (e ∙ i2b_lem inum) in
      let size2 : m2.sectors ≡ m.sectors = wsect_size x _ m1 inside ∙ handed_same.1 in
      let start : xint din.size ≡ din.size = xint_id din.size (omega (arith, direct)) in
      let end : xint (din.size + suc (length p)) ≡ din.size + suc (length p) =
        xint_id _ (omega (arith, direct, room)) in
      let round =
        append_round (length p) din.size x c p din (with_block (din.size / 512) x din) m m1
          (m1.disk x)
          (block_of_direct (din.size / 512) a din m (omega (arith, direct)) at fits free)
          (rsect_inside x m1 inside) room in
      let w =
        winode_lem inum final m2 final-IsDinode
          (omega (arith, rinode-inside inum m din read, size2)) in
      (
        w.0,
        rw (read, iappend) (rw (start) (rw round (rw end w.1))),
        record {
          inode = w.2;
          bytes = λ k b e.
              ap (λ (d : Block). d (o + k)) (w.3 x apart_here)
              ∙ wsect_at x _ m1 (o + k)
              ∙ overwrite-at o (c ∷ p) (m1.disk x) k b e;
          rest = λ t out.
              ap (λ (d : Block). d t) (w.3 x apart_here)
              ∙ wsect_at x _ m1 t
              ∙ overwrite-outside o (c ∷ p) (m1.disk x) t out
              ∙ ap (λ (d : Blocks). d x t) handed_same.0;
          others = λ t ne far.
              w.3 t (λ e. far (e ∙ i2b_lem inum))
              ∙ wsect_other x _ m1 t ne
              ∙ ap (λ (d : Blocks). d t) handed_same.0;
          same_size = w.4 ∙ size2;
        },
        w.5 ∙ (wsect_counters x _ m1).0 ∙ handed_counters.0,
        w.6 ∙ (wsect_counters x _ m1).1 ∙ handed_counters.1,
      )
