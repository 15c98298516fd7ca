-- ===== src/Fs/Alloc.antt =====
-- `readsb`, `bzero`, `balloc` and `bfree` (fs.c): the bitmap of the blocks in use. `none` is a panic.
-- `log_write` is the change of the block that later calls of `bread` see.
use assignment.Prelude.{ℕ, zero, suc, ◌+◌, ◌/◌, ◌%◌, Option, none, some, ◌==◌, if◌then◌else◌}
use assignment.Fs.Block.{Blocks, update, bit, with_bit, without_bit, get32}

-- `struct superblock`
pub record Superblock : Type 0 where
  pub size : ℕ
  pub nblocks : ℕ
  pub ninodes : ℕ
  pub nlog : ℕ

unfoldable pub readsb : Blocks → Superblock
readsb d = record {
  size = get32 (d 1) 0;
  nblocks = get32 (d 1) 4;
  ninodes = get32 (d 1) 8;
  nlog = get32 (d 1) 12;
}

-- BPB, IPB, BBLOCK and IBLOCK
abbrev pub bits_per_block : ℕ
bits_per_block = 4096

abbrev pub inodes_per_block : ℕ
inodes_per_block = 8

abbrev pub bitmap_block : ℕ → ℕ → ℕ
bitmap_block b ninodes = b / bits_per_block + ninodes / inodes_per_block + 3

abbrev pub inode_block : ℕ → ℕ
inode_block i = i / inodes_per_block + 2

unfoldable pub bzero : ℕ → Blocks → Blocks
bzero bno d = update d bno (λ _. 0)

-- `bp->data[bi/8] & m` for the block `b`, as 0 or 1
unfoldable pub in_use : Superblock → Blocks → ℕ → ℕ
in_use sb d b = let bi = b % bits_per_block in bit (d (bitmap_block b sb.ninodes) (bi / 8)) (bi % 8)

-- The byte that holds the bit of `b` is changed.
unfoldable pub change_bit : (ℕ → ℕ → ℕ) → Superblock → ℕ → Blocks → Blocks
change_bit f sb b d =
    let bi = b % bits_per_block in
    let block = d (bitmap_block b sb.ninodes) in
    update d (bitmap_block b sb.ninodes) (update block (bi / 8) (f (block (bi / 8)) (bi % 8)))

-- The two loops of `balloc`, which together go through the blocks in order, from `b` on with `n`
-- left: the first block that is free is marked and zeroed.
unfoldable pub balloc_from : ℕ → Superblock → ℕ → Blocks → Option (ℕ × Blocks)
balloc_from zero sb b d = none
balloc_from (suc n) sb b d =
    let rest = balloc_from n sb (b + 1) d in
    if in_use sb d b == 0 then some (b, bzero b (change_bit with_bit sb b d)) else rest

unfoldable pub balloc : Blocks → Option (ℕ × Blocks)
balloc d = let sb = readsb d in balloc_from sb.size sb 0 d

unfoldable pub bfree : ℕ → Blocks → Option Blocks
bfree b d =
    let sb = readsb d in if in_use sb d b == 0 then none else some (change_bit without_bit sb b d)
