-- ===== src/Mkfs/BitmapLaws.antt =====
-- The bitmap of mkfs.c against the kernel's reading of it.
use assignment.Prelude.{
  ℕ, zero, suc, ◌+◌, ◌*◌, ◌/◌, ◌%◌, ◌≤◌, ◌<◌, ◌≡◌, ◌≢◌, ◌⊎◌, inl, inr, refl, ◌∙◌, ◌&&◌, none, some,
  arith, ◌==◌, leb, ltb, if◌then◌else◌, Bool-cases,
}
use assignment.Fs.Block.{Block, update, bit, with_bit, bit-with_bit}
use assignment.Fs.Alloc.{Superblock, in_use}
use assignment.Mkfs.Image.{Image, ninodes, wsect, mark_from, balloc}

abbrev bit_at : Block → ℕ → ℕ
bit_at b c = bit (b (c / 8)) (c % 8)

-- One round marks the bit `i` and no other.
marked_bit :
    (i c : ℕ) (b : Block)
    → bit_at (update b (i / 8) (with_bit (b (i / 8)) (i % 8))) c
      ≡ (if i == c then 1 else bit_at b c)
marked_bit i c b = ground (arith, bit-with_bit (b (i / 8)) (i % 8) (c % 8))

mark_from_bits :
    (n i c : ℕ) (b : Block)
    → bit_at (mark_from n i b) c ≡ (if leb i c && ltb c (i + n) then 1 else bit_at b c)
unfolding mark_from
mark_from_bits zero i c b = ground arith
mark_from_bits (suc n) i c b = mark_from_bits n (i + 1) c _ ∙ ground (arith, marked_bit i c b)

bit_zero : (k : ℕ) → bit 0 k ≡ 0
unfolding bit
bit_zero zero = refl
bit_zero (suc k) = bit_zero k

marked_from_start :
    (used c : ℕ) → bit_at (mark_from used 0 (λ a. 0)) c ≡ (if ltb c used then 1 else 0)
marked_from_start used c = mark_from_bits used 0 c (λ a. 0) ∙ ground (arith, bit_zero (c % 8))

-- What `balloc` leaves: by any superblock with as many inodes, the blocks in use are the first `used`,
-- and only the sector of the bitmap is written.
pub record Marked (used : ℕ) (m m' : Image) : Type 0 where
  pub marks :
      (sb : Superblock) (c : ℕ)
      → sb.ninodes ≡ ninodes
      → c < 4096
      → in_use sb m'.disk c ≡ (if ltb c used then 1 else 0)
  pub others : (t : ℕ) → t ≢ 28 → m'.disk t ≡ m.disk t
  pub counters : (m'.freeblock ≡ m.freeblock) × (m'.usedblocks ≡ m.usedblocks)

in_use-marked :
    (used : ℕ) (m : Image) (sb : Superblock) (c : ℕ)
    → sb.ninodes ≡ ninodes
    → c < 4096
    → in_use sb (wsect 28 (mark_from used 0 (λ a. 0)) m).disk c ≡ (if ltb c used then 1 else 0)
unfolding in_use wsect
in_use-marked used m sb c same lt =
    let block : c / 4096 + sb.ninodes / 8 + 3 ≡ 28 = omega (arith, same) in
    let offset : c % 4096 ≡ c = omega arith in rw (block, offset) (marked_from_start used c)

-- `balloc` of mkfs.c makes the bitmap in which the kernel finds the first `used` blocks in use and no
-- other, and writes no other sector; it stops at its assertion exactly when there are 4096 blocks
-- or more.
pub balloc_marks :
    (used : ℕ) (m : Image)
    → ((4096 ≤ used) × (balloc used m ≡ none))
      ⊎ ((used < 4096) × (m' : Image) × (balloc used m ≡ some m') × Marked used m m')
unfolding balloc wsect
balloc_marks used m = elim (Bool-cases (ltb used (512 * 8))) [
  | inr e ↦ inl (ground (arith, e), rw (e, balloc) refl)
  | inl e ↦ inr (
    ground (arith, e),
    wsect 28 (mark_from used 0 (λ a. 0)) m,
    rw (e, balloc) refl,
    record {
      marks = in_use-marked used m;
      others = λ t ne. ground (arith, ne);
      counters = (refl, refl);
    },
  )
]
