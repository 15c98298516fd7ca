-- ===== src/Mkfs/Image.antt =====
-- mkfs.c: the image, its sectors, its inodes and its bitmap. The host is little-endian, as the
-- conversions `xshort` and `xint` are for; the calls of the host on the image file do not fail, but a read
-- behind its end gives no bytes.
use assignment.Prelude.{
  ℕ, zero, suc, ◌+◌, ◌*◌, ◌/◌, ◌%◌, ◌^◌, Option, none, some, ltb, if◌then◌else◌, replicate,
}
use assignment.Fs.Block.{Block, Blocks, update, with_bit, get16, get32, put16, put32}
use assignment.Fs.Dinode.{Dinode, dinode_size, naddrs, read_dinode, write_dinode}

-- The file `fsfd` as its sectors, with their number, and the counters of mkfs.c.
pub record Image : Type 0 where
  pub disk : Blocks
  pub sectors : ℕ
  pub freeblock : ℕ
  pub usedblocks : ℕ
  pub freeinode : ℕ

-- A step that may stop, at an assertion or by `exit(1)`, and what comes behind it.
infixl 5 ◌then_do◌
abbrev pub ◌then_do◌ {ℓ κ} : {A : Type ℓ} {B : Type κ} → Option A → (A → Option B) → Option B
none then_do f = none
some a then_do f = f a

-- ninodes and IPB
abbrev pub ninodes : ℕ
ninodes = 200

abbrev pub inodes_per_block : ℕ
inodes_per_block = 8

-- The bytes of the word `y` that is stored in place of `x`, read back as the host does.
unfoldable pub xshort : ℕ → ℕ
xshort x = get16 (put16 0 x (λ a. 0)) 0

unfoldable pub xint : ℕ → ℕ
xint x = get32 (put32 0 x (λ a. 0)) 0

unfoldable pub wsect : ℕ → Block → Image → Image
wsect sec buf m = record m {
  disk = update (m.disk) sec buf;
  sectors = if ltb sec m.sectors then m.sectors else sec + 1;
}

-- `rsect`; `none` is the `exit(1)` where `read` finds no 512 bytes, behind the end of the file.
unfoldable pub rsect : ℕ → Image → Option Block
rsect sec m = if ltb sec m.sectors then some (m.disk sec) else none

unfoldable pub i2b : ℕ → ℕ
i2b inum = inum / inodes_per_block + 2

-- `((struct dinode*)buf) + (inum % IPB)`, as an offset
abbrev pub dinode_offset : ℕ → ℕ
dinode_offset inum = inum % inodes_per_block * dinode_size

unfoldable pub winode : ℕ → Dinode → Image → Option Image
winode inum ip m = rsect (i2b inum) m then_do λ buf.
    some (wsect (i2b inum) (write_dinode (dinode_offset inum) ip buf) m)

unfoldable pub rinode : ℕ → Image → Option Dinode
rinode inum m = rsect (i2b inum) m then_do λ buf. some (read_dinode (dinode_offset inum) buf)

-- The inode that `ialloc` writes.
abbrev pub new_dinode : ℕ → Dinode
new_dinode type = record {
  type = xshort type;
  major = 0;
  minor = 0;
  nlink = xshort 1;
  size = xint 0;
  addrs = replicate naddrs 0;
}

unfoldable pub ialloc : ℕ → Image → Option (ℕ × Image)
ialloc type m =
    let inum = m.freeinode in
    winode inum (new_dinode type) (record m { freeinode = (inum + 1) % 2 ^ 32 }) then_do λ m'.
    some (inum, m')

-- The loop of `balloc` from `i` on, with `n` rounds left.
unfoldable pub mark_from : ℕ → ℕ → Block → Block
mark_from zero i buf = buf
mark_from (suc n) i buf = mark_from n (i + 1) (update buf (i / 8) (with_bit (buf (i / 8)) (i % 8)))

-- `balloc`; `none` is the assertion that fails.
unfoldable pub balloc : ℕ → Image → Option Image
balloc used m =
    if ltb used (512 * 8)
    then some (wsect (ninodes / inodes_per_block + 3) (mark_from used 0 (λ a. 0)) m)
    else none
