-- ===== src/Fs/Map.antt =====
-- The blocks of a file (fs.c): `bmap`, which finds or allocates them, `itrunc`, which frees them, and
-- `iput`, which frees the file with its last reference.
use assignment.Prelude.{
  ℕ, zero, suc, ◌+◌, ◌-◌, ◌*◌, true, false, ◌&&◌, none, some, ◌==◌, ltb, if◌then◌else◌, get_elem?,
  modify,
}
use assignment.Fs.Block.{get32, put32}
use assignment.Fs.Monad.{
  Inode, M, ◌>>=◌, ◌>>◌, return, panic, bread, log_write, alloc_block, free_block, inode, set_inode,
}
use assignment.Fs.Inode.{iupdate, iunlock}

-- NDIRECT and NINDIRECT
abbrev pub ndirect : ℕ
ndirect = 12

abbrev pub nindirect : ℕ
nindirect = 128

-- `ip->addrs[n]`, of an array of 13, and a write to it.
abbrev pub addr_at : ℕ → Inode → ℕ
addr_at n i = elim (get_elem? (i.node.addrs) n) [ none ↦ 0 | some a ↦ a ]

abbrev pub set_addr : ℕ → ℕ → Inode → Inode
set_addr n a i = record i { node = record (i.node) { addrs = modify (i.node.addrs) n (λ _. a) } }

-- `if((addr = ip->addrs[n]) == 0) ip->addrs[n] = addr = balloc(ip->dev);`
unfoldable pub addr_or_alloc : ℕ → ℕ → M ℕ
addr_or_alloc ip n = do
  i ← inode ip
  if addr_at n i == 0
      then (do addr ← alloc_block; set_inode ip (set_addr n addr); return addr)
      else return (addr_at n i)

-- The word `bn` of the indirect block `b`, with a block allocated for it if it is 0.
unfoldable pub indirect_or_alloc : ℕ → ℕ → M ℕ
indirect_or_alloc b bn = do
  a ← bread b
  if get32 a (4 * bn) == 0
      then (do addr ← alloc_block; log_write b (put32 (4 * bn) addr); return addr)
      else return (get32 a (4 * bn))

unfoldable pub bmap : ℕ → ℕ → M ℕ
bmap ip bn =
    if ltb bn ndirect
    then addr_or_alloc ip bn
    else (if ltb (bn - ndirect) nindirect
        then (addr_or_alloc ip ndirect >>= λ b. indirect_or_alloc b (bn - ndirect))
        else panic)

-- The first loop of `itrunc` from the address `i` on, with `n` left.
unfoldable pub free_direct : ℕ → ℕ → ℕ → M (Unit {0})
free_direct zero ip n = return tt
free_direct (suc left) ip n = do
  i ← inode ip
  if addr_at n i == 0 then return tt else (do free_block (addr_at n i); set_inode ip (set_addr n 0))
  free_direct left ip (n + 1)

-- The second loop, over the words of the indirect block `b`.
unfoldable pub free_indirect : ℕ → ℕ → ℕ → M (Unit {0})
free_indirect zero b j = return tt
free_indirect (suc left) b j = do
  a ← bread b
  if get32 a (4 * j) == 0 then return tt else free_block (get32 a (4 * j))
  free_indirect left b (j + 1)

unfoldable pub itrunc : ℕ → M (Unit {0})
itrunc ip = do
  free_direct ndirect ip 0
  i ← inode ip
  if addr_at ndirect i == 0 then return tt else (do
    free_indirect nindirect (addr_at ndirect i) 0
    free_block (addr_at ndirect i)
    set_inode ip (set_addr ndirect 0))
  set_inode ip (λ i. record i { node = record (i.node) { size = 0 } })
  iupdate ip

-- The part of `iput` that frees a file with no links.
unfoldable pub free_inode : ℕ → M (Unit {0})
free_inode ip = do
  set_inode ip (λ i. record i { busy = true })
  itrunc ip
  set_inode ip (λ i. record i { node = record (i.node) { type = 0 } })
  iupdate ip
  set_inode ip (λ i. record i { busy = false; valid = false })

unfoldable pub iput : ℕ → M (Unit {0})
iput ip = do
  i ← inode ip
  if i.ref == 1 && (i.valid && i.node.nlink == 0)
      then (if i.busy then panic else free_inode ip)
      else return tt
  set_inode ip (λ i. record i { ref = i.ref - 1 })

unfoldable pub iunlockput : ℕ → M (Unit {0})
iunlockput ip = do iunlock ip; iput ip
