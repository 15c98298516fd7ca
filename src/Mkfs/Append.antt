-- ===== src/Mkfs/Append.antt =====
-- mkfs.c, `iappend`: bytes behind the end of a file, in blocks that it allocates.
use assignment.Prelude.{
  ℕ, zero, suc, ◌+◌, ◌-◌, ◌*◌, ◌/◌, ◌%◌, ◌^◌, List, [], ◌∷◌, Option, none, some, ◌==◌, ltb,
  if◌then◌else◌, length, take, drop, get_elem?, modify,
}
use assignment.Fs.Block.{get32, put32, block_size}
use assignment.Fs.Dinode.{Dinode}
use assignment.Fs.Map.{ndirect, nindirect}
use assignment.Fs.File.{overwrite, min}
use assignment.Mkfs.Image.{Image, ◌then_do◌, xint, wsect, rsect, winode, rinode}

-- `freeblock++; usedblocks++;`
unfoldable pub use_block : Image → Image
use_block m = record m {
  freeblock = (m.freeblock + 1) % 2 ^ 32;
  usedblocks = (m.usedblocks + 1) % 2 ^ 32;
}

-- `din.addrs[n]`, of an array of 13
abbrev pub addr_at : ℕ → Dinode → ℕ
addr_at n din = elim (get_elem? (din.addrs) n) [ none ↦ 0 | some a ↦ a ]

-- `if(xint(din.addrs[n]) == 0){ din.addrs[n] = xint(freeblock++); usedblocks++; }`
unfoldable pub ensure_addr : ℕ → Dinode → Image → Dinode × Image
ensure_addr n din m =
    if xint (addr_at n din) == 0
    then (record din { addrs = modify (din.addrs) n (λ _. xint m.freeblock) }, use_block m)
    else (din, m)

-- The same for the word `n` of the indirect block `b`, which is written back; the result is `x`.
unfoldable pub ensure_indirect : ℕ → ℕ → Image → Option (ℕ × Image)
ensure_indirect b n m = rsect b m then_do λ indirect. some (
    if get32 indirect (4 * n) == 0
    then (
      xint (xint m.freeblock),
      wsect b (put32 (4 * n) (xint m.freeblock) indirect) (use_block m),
    )
    else (xint (get32 indirect (4 * n)), m))

-- `x` for the block `fbn` of the file; `none` is the assertion that fails, or the end in `rsect`.
unfoldable pub block_of : ℕ → Dinode → Image → Option (ℕ × Dinode × Image)
block_of fbn din m =
    let direct = ensure_addr fbn din m in
    let through = ensure_addr ndirect din m in
    if ltb fbn (ndirect + nindirect)
    then (if ltb fbn ndirect
        then some (xint (addr_at fbn direct.0), direct.0, direct.1)
        else (ensure_indirect (xint (addr_at ndirect through.0)) (fbn - ndirect) through.1
            then_do λ word. some (word.0, through.0, word.1)))
    else none

-- The loop of `iappend`, at the offset `off` with the bytes `p` left, at most one round for each
-- byte; the result has `off` at its end.
unfoldable pub append_from : ℕ → ℕ → List ℕ → Dinode → Image → Option (ℕ × Dinode × Image)
append_from zero off p din m = none
append_from (suc fuel) off [] din m = some (off, din, m)
append_from (suc fuel) off (c ∷ p) din m =
    let fbn = off / block_size in
    let n1 = min (length (c ∷ p)) ((fbn + 1) * block_size - off) in
    block_of fbn din m then_do λ (x, din', m'). rsect x m' then_do λ buf.
    append_from fuel (off + n1) (drop n1 (c ∷ p)) din'
      (wsect x (overwrite (off - fbn * block_size) (take n1 (c ∷ p)) buf) m')

unfoldable pub iappend : ℕ → List ℕ → Image → Option Image
iappend inum p m = rinode inum m then_do λ din.
    append_from (suc (length p)) (xint din.size) p din m then_do λ (off, din', m').
    winode inum (record din' { size = xint off }) m'
