-- ===== src/Fs/Inode.antt =====
-- The inodes of fs.c, on disk and in the cache. The lock of the cache is left out, and so is `wakeup`,
-- since the processes are not part of this state. A reference count is not below 0.
use assignment.Prelude.{
  ℕ, zero, suc, ◌+◌, ◌-◌, ◌*◌, ◌%◌, Bool, true, false, ◌&&◌, ◌||◌, not, none, some, ◌==◌, ltb, leb,
  if◌then◌else◌, modify, find_index,
}
use assignment.Fs.Block.{Block, get16, put16}
use assignment.Fs.Alloc.{readsb, inode_block, inodes_per_block}
use assignment.Fs.Dinode.{dinode_size, read_dinode, write_dinode}
use assignment.Fs.Monad.{
  Inode, ok, panics, M, ◌>>=◌, ◌>>◌, return, panic, sleep_on, bread, log_write, inode, set_inode,
}

-- `(struct dinode*)bp->data + inum % IPB`, as an offset
abbrev pub dinode_offset : ℕ → ℕ
dinode_offset inum = inum % inodes_per_block * dinode_size

abbrev pub is_cached : ℕ → ℕ → Inode → Bool
is_cached dev inum i = ltb 0 i.ref && (i.dev == dev && i.inum == inum)

abbrev pub is_recyclable : Inode → Bool
is_recyclable i = i.ref == 0

-- `iget`: the index of the inode in the cache.
unfoldable pub iget : ℕ → ℕ → M ℕ
iget dev inum s = elim (find_index (is_cached dev inum) s.icache) [
  | some ip ↦ ok ip (record s { icache = modify s.icache ip (λ i. record i { ref = i.ref + 1 }) })
  | none ↦ elim (find_index is_recyclable s.icache) [
    | none ↦ panics
    | some ip ↦ ok ip (record s {
      icache =
          modify s.icache ip
            (λ i. record i { dev = dev; inum = inum; ref = 1; busy = false; valid = false });
    })
  ]
]

-- `memset(dip, 0, sizeof(*dip)); dip->type = type;`
unfoldable pub fresh_dinode : ℕ → ℕ → Block → Block
fresh_dinode o type b = put16 o type (λ a. if leb o a && ltb a (o + dinode_size) then 0 else b a)

-- The loop of `ialloc` from the inode `inum` on, with `n` left.
unfoldable pub ialloc_from : ℕ → ℕ → ℕ → ℕ → M ℕ
ialloc_from zero dev type inum = panic
ialloc_from (suc n) dev type inum = do
  b ← bread (inode_block inum)
  if get16 b (dinode_offset inum) == 0
      then (do log_write (inode_block inum) (fresh_dinode (dinode_offset inum) type); iget dev inum)
      else ialloc_from n dev type (inum + 1)

unfoldable pub ialloc : ℕ → ℕ → M ℕ
ialloc dev type s = ialloc_from ((readsb s.blocks).ninodes - 1) dev type 1 s

unfoldable pub iupdate : ℕ → M (Unit {0})
iupdate ip = do
  i ← inode ip
  log_write (inode_block i.inum) (write_dinode (dinode_offset i.inum) i.node)

unfoldable pub idup : ℕ → M ℕ
idup ip = do i ← inode ip; set_inode ip (λ i. record i { ref = i.ref + 1 }); return ip

-- The part of `ilock` that reads the inode from the disk.
unfoldable pub load : ℕ → M (Unit {0})
load ip = do
  i ← inode ip
  b ← bread (inode_block i.inum)
  let node = read_dinode (dinode_offset i.inum) b
  set_inode ip (λ i. record i { node = node; valid = true })
  if node.type == 0 then panic else return tt

-- `ilock`, which sleeps while the inode is busy. A null pointer is not an index.
unfoldable pub ilock : ℕ → M (Unit {0})
ilock ip = do
  i ← inode ip
  if ltb i.ref 1
      then panic
      else (if i.busy then sleep_on ip else (do
        set_inode ip (λ i. record i { busy = true })
        if i.valid then return tt else load ip))

unfoldable pub iunlock : ℕ → M (Unit {0})
iunlock ip = do
  i ← inode ip
  if not i.busy || ltb i.ref 1 then panic else set_inode ip (λ i. record i { busy = false })

-- `stati`
pub record Stat : Type 0 where
  pub dev : ℕ
  pub ino : ℕ
  pub type : ℕ
  pub nlink : ℕ
  pub size : ℕ

unfoldable pub stati : ℕ → M Stat
stati ip = do
  i ← inode ip
  return (record {
    dev = i.dev;
    ino = i.inum;
    type = i.node.type;
    nlink = i.node.nlink;
    size = i.node.size;
  })
