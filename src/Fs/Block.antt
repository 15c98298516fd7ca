-- ===== src/Fs/Block.antt =====
-- A block as the byte at each offset, and the device as the block at each number: what `bread` gives,
-- through the buffer cache. Bits, and the words of C in little-endian order.
use assignment.Prelude.{
  ℕ, zero, suc, ◌+◌, ◌-◌, ◌*◌, ◌/◌, ◌%◌, ◌≤◌, ◌<◌, ◌≡◌, ◌⊎◌, ◌∙◌, ap, arith, ◌==◌, if◌then◌else◌,
}

abbrev pub Block : Type 0
Block = ℕ → ℕ

abbrev pub Blocks : Type 0
Blocks = ℕ → Block

abbrev pub block_size : ℕ
block_size = 512

abbrev pub update {ℓ} : {A : Type ℓ} → (ℕ → A) → ℕ → A → ℕ → A
update f i a = λ t. if t == i then a else f t

-- The bit `x & (1 << k)`, as 0 or 1; `x | (1 << k)`; and `x & ~(1 << k)`.
unfoldable pub bit : ℕ → ℕ → ℕ
bit x zero = x % 2
bit x (suc k) = bit (x / 2) k

unfoldable pub with_bit : ℕ → ℕ → ℕ
with_bit x zero = x + 1 - x % 2
with_bit x (suc k) = x % 2 + 2 * with_bit (x / 2) k

unfoldable pub without_bit : ℕ → ℕ → ℕ
without_bit x zero = x - x % 2
without_bit x (suc k) = x % 2 + 2 * without_bit (x / 2) k

pub bit-with_bit : (x k l : ℕ) → bit (with_bit x k) l ≡ (if k == l then 1 else bit x l)
unfolding bit with_bit
bit-with_bit x zero zero = omega arith
bit-with_bit x zero (suc l) =
    let e : (x + 1 - x % 2) / 2 ≡ x / 2 = omega arith in ap (λ y. bit y l) e ∙ ground arith
bit-with_bit x (suc k) zero = ground arith
bit-with_bit x (suc k) (suc l) =
    let e : (x % 2 + 2 * with_bit (x / 2) k) / 2 ≡ with_bit (x / 2) k = omega arith in
    ap (λ y. bit y l) e ∙ bit-with_bit (x / 2) k l ∙ ground arith

pub bit-without_bit : (x k l : ℕ) → bit (without_bit x k) l ≡ (if k == l then 0 else bit x l)
unfolding bit without_bit
bit-without_bit x zero zero = omega arith
bit-without_bit x zero (suc l) =
    let e : (x - x % 2) / 2 ≡ x / 2 = omega arith in ap (λ y. bit y l) e ∙ ground arith
bit-without_bit x (suc k) zero = ground arith
bit-without_bit x (suc k) (suc l) =
    let e : (x % 2 + 2 * without_bit (x / 2) k) / 2 ≡ without_bit (x / 2) k = omega arith in
    ap (λ y. bit y l) e ∙ bit-without_bit (x / 2) k l ∙ ground arith

-- Setting a bit that is clear and clearing it again.
pub without-with_bit : (x k : ℕ) → bit x k ≡ 0 → without_bit (with_bit x k) k ≡ x
unfolding bit with_bit without_bit
without-with_bit x zero h = omega (arith, h)
without-with_bit x (suc k) h =
    let e : (x % 2 + 2 * with_bit (x / 2) k) / 2 ≡ with_bit (x / 2) k = omega arith in
    let r = without-with_bit (x / 2) k h in
    let s : without_bit ((x % 2 + 2 * with_bit (x / 2) k) / 2) k ≡ x / 2 =
      ap (λ y. without_bit y k) e ∙ r in
    omega (arith, s)

-- `ushort` and `uint` words at an offset.
abbrev pub get16 : Block → ℕ → ℕ
get16 b o = b o + 256 * b (o + 1)

abbrev pub get32 : Block → ℕ → ℕ
get32 b o = b o + 256 * b (o + 1) + 65536 * b (o + 2) + 16777216 * b (o + 3)

unfoldable pub put16 : ℕ → ℕ → Block → Block
put16 o v b = update (update b o (v % 256)) (o + 1) (v / 256 % 256)

unfoldable pub put32 : ℕ → ℕ → Block → Block
put32 o v b =
    update
      (update (update (update b o (v % 256)) (o + 1) (v / 256 % 256)) (o + 2) (v / 65536 % 256))
      (o + 3) (v / 16777216 % 256)

pub get16-put16 : (o v : ℕ) (b : Block) → v < 65536 → get16 (put16 o v b) o ≡ v
unfolding put16
get16-put16 o v b lt = ground arith

pub put16_off : (o v : ℕ) (b : Block) (a : ℕ) → (a < o) ⊎ (o + 2 ≤ a) → put16 o v b a ≡ b a
unfolding put16
put16_off o v b a off = ground arith

pub get32-put32 : (o v : ℕ) (b : Block) → v < 4294967296 → get32 (put32 o v b) o ≡ v
unfolding put32
get32-put32 o v b lt = ground arith

pub put32_off : (o v : ℕ) (b : Block) (a : ℕ) → (a < o) ⊎ (o + 4 ≤ a) → put32 o v b a ≡ b a
unfolding put32
put32_off o v b a off = ground arith
