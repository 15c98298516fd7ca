-- ===== src/Fs/FileLaws.antt =====
-- The bytes that `readi` gives (fs.c).
use assignment.Prelude.{
  ℕ, zero, suc, ◌+◌, ◌-◌, ◌/◌, ◌%◌, ◌≤◌, ◌≡◌, ◌≢◌, ◌⊎◌, inl, inr, refl, sym, subst, ◌∙◌, false,
  List, [], some, ℤ, pos, minus_one, arith, ◌==◌, ltb, Bool-cases, if◌then◌else◌, length,
  length-append, get_elem?,
}
use assignment.Fs.Block.{Block, block_size}
use assignment.Fs.Monad.{Inode, Fs}
use assignment.Fs.MonadLaws.{Ensures, Ensures-bind, Ensures-then, inode_at}
use assignment.Fs.Map.{bmap}
use assignment.Fs.File.{Devsw, t_dev, min, slice, read_from, is_outside, read_file, readi}

length-slice : (m o : ℕ) (b : Block) → length (slice m o b) ≡ m
unfolding slice
length-slice zero o b = refl
length-slice (suc m) o b = omega (arith, length-slice m (o + 1) b)

-- The loop of `readi` gives as many bytes as it is asked for.
read_from-length :
    (fuel ip off n : ℕ) (s : Fs)
    → n ≤ fuel
    → Ensures (λ bytes t. length bytes ≡ n) (read_from fuel ip off n s)
unfolding read_from
read_from-length zero ip off n s le = omega arith
read_from-length (suc fuel) ip off n s le = elim (Bool-cases (n == 0)) [
  | inl e ↦ rw e (ground arith)
  | inr e ↦ rw e (
      let P : List ℕ → Fs → Type 0 = λ bytes t. length bytes ≡ n in
      let m : ℕ = min n (block_size - off % block_size) in
      Ensures-bind P (bmap ip (off / block_size)) _ s (λ addr t q.
        Ensures-then (λ bytes u. length bytes ≡ n - m) P (read_from fuel ip (off + m) (n - m)) _ t
          (read_from-length fuel ip (off + m) (n - m) t (ground (arith, e)))
          (λ rest u short.
            length-append (slice m (off % block_size) (t.blocks addr)) rest
            ∙ ground (arith, length-slice m (off % block_size) (t.blocks addr), short))))
]

-- The result of `readi` on a file that is not a device: -1 with no bytes, or the number of the bytes,
-- which are within the file and no more than were asked for.
pub record IsRead (size off n : ℕ) (r : ℤ × List ℕ) : Type 0 where
  pub count : ℕ
  pub result :
      ((r.0 ≡ minus_one) × (r.1 ≡ []) × (count ≡ 0))
      ⊎ ((r.0 ≡ pos count) × (length r.1 ≡ count) × (off + count ≤ size))
  pub within : count ≤ n

read_file-IsRead :
    (ip size off n : ℕ) (s : Fs) → Ensures (λ r t. IsRead size off n r) (read_file ip size off n s)
unfolding read_file
read_file-IsRead ip size off n s = elim (Bool-cases (is_outside size off n)) [
  | inl e ↦ rw e (record { count = 0; result = inl (refl, refl, refl); within = omega arith })
  | inr e ↦ rw e (
      let m : ℕ = if ltb size (off + n) then size - off else n in
      let le : (m ≤ n) × (off + m ≤ size) = (ground arith, ground (arith, e)) in
      Ensures-then (λ bytes t. length bytes ≡ m) (λ r t. IsRead size off n r) (read_from m ip off m)
        _ s (read_from-length m ip off m s (omega arith))
        (λ bytes t q. record { count = m; result = inr (refl, q, le.1); within = le.0 }))
]

-- `readi` of a file that is not a device returns -1 and no bytes, or reads at most the `n` bytes that
-- were asked for, all of them before the end of the file, and returns their number.
pub readi-IsRead :
    (devsw : Devsw) (ip off n : ℕ) (x : Inode) (s : Fs)
    → get_elem? s.icache ip ≡ some x
    → x.node.type ≢ t_dev
    → Ensures (λ r t. IsRead (x.node.size) off n r) (readi devsw ip off n s)
unfolding readi
readi-IsRead devsw ip off n x s at file =
    let P : ℤ × List ℕ → Fs → Type 0 = λ r t. IsRead (x.node.size) off n r in
    let e : (x.node.type == t_dev) ≡ false = ground (arith, file) in
    subst (Ensures P) (sym (inode_at ip x s _ at))
      (rw e (read_file-IsRead ip (x.node.size) off n s))
