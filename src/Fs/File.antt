-- ===== src/Fs/File.antt =====
-- `readi` and `writei` (fs.c): the bytes of a file.
use assignment.Prelude.{
  ℕ, zero, suc, ◌+◌, ◌-◌, ◌/◌, ◌%◌, ◌^◌, Bool, ◌&&◌, ◌||◌, List, [], ◌∷◌, ◌++◌, Option, none, some,
  ℤ, pos, minus_one, ◌==◌, ltb, if◌then◌else◌, length, take, drop,
}
use assignment.Fs.Block.{Block, update, block_size}
use assignment.Fs.Monad.{M, ◌>>=◌, ◌>>◌, return, bread, log_write, inode, set_inode}
use assignment.Fs.Inode.{iupdate}
use assignment.Fs.Map.{bmap}

-- T_DIR and T_DEV (stat.h), MAXFILE * BSIZE
abbrev pub t_dir : ℕ
t_dir = 1

abbrev pub t_dev : ℕ
t_dev = 3

abbrev pub max_bytes : ℕ
max_bytes = 71680

-- The device functions of `devsw` by major number, which is a 16-bit `short`: `none` is one out of
-- range or with no function.
pub record Devsw : Type 0 where
  pub read : ℕ → Option (ℕ → ℕ → M (ℤ × List ℕ))
  pub write : ℕ → Option (ℕ → List ℕ → M ℤ)

-- `m` bytes of a block from the offset `o` on, and bytes that are stored there.
unfoldable pub slice : ℕ → ℕ → Block → List ℕ
slice zero o b = []
slice (suc m) o b = b o ∷ slice m (o + 1) b

unfoldable pub overwrite : ℕ → List ℕ → Block → Block
overwrite o [] b = b
overwrite o (c ∷ cs) b = overwrite (o + 1) cs (update b o c)

abbrev pub min : ℕ → ℕ → ℕ
min a b = if ltb a b then a else b

-- The loop of `readi` with `n` bytes left, at most one round for each.
unfoldable pub read_from : ℕ → ℕ → ℕ → ℕ → M (List ℕ)
read_from zero ip off n = return []
read_from (suc fuel) ip off n = if n == 0 then return [] else (do
  addr ← bmap ip (off / block_size)
  b ← bread addr
  let m : ℕ = min n (block_size - off % block_size)
  rest ← read_from fuel ip (off + m) (n - m)
  return (slice m (off % block_size) b ++ rest))

-- The loop of `writei` with the bytes that are left; the result is `off` at its end.
unfoldable pub write_from : ℕ → ℕ → ℕ → List ℕ → M ℕ
write_from zero ip off cs = return off
write_from (suc fuel) ip off cs = if length cs == 0 then return off else (do
  addr ← bmap ip (off / block_size)
  let m : ℕ = min (length cs) (block_size - off % block_size)
  log_write addr (overwrite (off % block_size) (take m cs))
  write_from fuel ip (off + m) (drop m cs))

-- `off > ip->size || off + n < off`, on `uint`s
abbrev pub is_outside : ℕ → ℕ → ℕ → Bool
is_outside size off n = ltb size off || ltb ((off + n) % 2 ^ 32) off

-- `readi` of a file that is not a device.
unfoldable pub read_file : ℕ → ℕ → ℕ → ℕ → M (ℤ × List ℕ)
read_file ip size off n = if is_outside size off n then return (minus_one, []) else (do
  let n' : ℕ = if ltb size (off + n) then size - off else n
  bytes ← read_from n' ip off n'
  return (pos n', bytes))

-- The end of `writei`, with `off` as the loop leaves it.
unfoldable pub grow : ℕ → ℕ → ℕ → M (Unit {0})
grow ip n off = do
  i ← inode ip
  if ltb 0 n && ltb i.node.size off
      then (do set_inode ip (λ i. record i { node = record (i.node) { size = off } }); iupdate ip)
      else return tt

-- `writei` of a file that is not a device.
unfoldable pub write_file : ℕ → List ℕ → ℕ → ℕ → M ℤ
write_file ip src size off =
    if is_outside size off (length src) || ltb max_bytes (off + length src)
    then return minus_one
    else (do
      off' ← write_from (length src) ip off src
      grow ip (length src) off'
      return (pos (length src)))

module _ (devsw : Devsw) where
  -- `readi`: the result, and the bytes that are stored at `dst`.
  unfoldable pub readi : ℕ → ℕ → ℕ → M (ℤ × List ℕ)
  readi ip off n = do
    i ← inode ip
    if i.node.type == t_dev
        then elim (devsw.read i.node.major) [ none ↦ return (minus_one, []) | some f ↦ f ip n ]
        else read_file ip (i.node.size) off n

  unfoldable pub writei : ℕ → List ℕ → ℕ → M ℤ
  writei ip src off = do
    i ← inode ip
    if i.node.type == t_dev
        then elim (devsw.write i.node.major) [ none ↦ return minus_one | some f ↦ f ip src ]
        else write_file ip src (i.node.size) off
