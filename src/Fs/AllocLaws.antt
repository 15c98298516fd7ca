-- ===== src/Fs/AllocLaws.antt =====
-- `balloc` and `bfree` (fs.c) against the set of the blocks in use.
use assignment.Prelude.{
  ℕ, zero, suc, ◌+◌, ◌/◌, ◌%◌, ◌≤◌, ◌<◌, ◌≡◌, ◌≢◌, ◌⊎◌, inl, inr, refl, sym, subst, ◌∙◌, ap, false,
  none, some, arith, ◌==◌, Bool-cases, ℕ_discrete, if◌then◌else◌,
}
use assignment.Fs.Block.{Blocks, bit, with_bit, without_bit, bit-with_bit, bit-without_bit}
use assignment.Fs.Alloc.{
  Superblock, readsb, bitmap_block, bits_per_block, bzero, in_use, change_bit, balloc_from, balloc,
  bfree,
}

change_bit_blocks :
    (f : ℕ → ℕ → ℕ) (sb : Superblock) (b : ℕ) (d : Blocks) (t : ℕ)
    → t ≢ bitmap_block b sb.ninodes
    → change_bit f sb b d t ≡ d t
unfolding change_bit
change_bit_blocks f sb b d t ne = ground (arith, ne)

-- Where the bit of the block `c` stands after that of `b` is set or cleared.
in_use-change_bit :
    (f : ℕ → ℕ → ℕ) (v : ℕ) (sb : Superblock) (b c : ℕ) (d : Blocks)
    → ((x k l : ℕ) → bit (f x k) l ≡ (if k == l then v else bit x l))
    → in_use sb (change_bit f sb b d) c ≡ (if b == c then v else in_use sb d c)
unfolding in_use change_bit
in_use-change_bit f v sb b c d law = ground (
  arith,
  law (d (bitmap_block b sb.ninodes) (b % bits_per_block / 8)) (b % bits_per_block % 8)
      (c % bits_per_block % 8),
)

-- A device whose superblock and bitmap are marked as in use.
pub record IsLaidOut (d : Blocks) : Type 0 where
  pub super : 1 < (readsb d).size
  pub bitmap : (c : ℕ) → c < (readsb d).size → bitmap_block c (readsb d).ninodes < (readsb d).size
  pub super_used : in_use (readsb d) d 1 ≢ 0
  pub bitmap_used :
      (c : ℕ) → c < (readsb d).size → in_use (readsb d) d (bitmap_block c (readsb d).ninodes) ≢ 0

-- The block `r` is the first one from `b` on, among `n`, that is free.
pub record IsFirstFree (n : ℕ) (sb : Superblock) (b : ℕ) (d : Blocks) (r : ℕ) : Type 0 where
  pub from : b ≤ r
  pub below : r < b + n
  pub free : in_use sb d r ≡ 0
  pub used : (c : ℕ) → b ≤ c → c < r → in_use sb d c ≢ 0

used_next :
    (sb : Superblock) (b c : ℕ) (d : Blocks)
    → (in_use sb d b == 0) ≡ false
    → b ≤ c
    → (b + 1 ≤ c → in_use sb d c ≢ 0)
    → in_use sb d c ≢ 0
used_next sb b c d e le next = elim (ℕ_discrete b c) [
  | yes same ↦ λ z. absurd (ground (arith, e, z, ap (in_use sb d) same))
  | no ne ↦ next (omega arith)
]

balloc_from_cases :
    (n : ℕ) (sb : Superblock) (b : ℕ) (d : Blocks)
    → ((balloc_from n sb b d ≡ none) × ((c : ℕ) → b ≤ c → c < b + n → in_use sb d c ≢ 0))
      ⊎ ((r : ℕ) × (balloc_from n sb b d ≡ some (r, bzero r (change_bit with_bit sb r d)))
          × IsFirstFree n sb b d r)
unfolding balloc_from
balloc_from_cases zero sb b d = inl (refl, λ c le lt. absurd (omega arith))
balloc_from_cases (suc n) sb b d = elim (Bool-cases (in_use sb d b == 0)) [
  | inl e ↦ inr (
    b,
    rw (e, balloc_from) refl,
    record {
      from = omega arith;
      below = omega arith;
      free = ground arith;
      used = λ c le lt. absurd (omega arith);
    },
  )
  | inr e ↦ elim (balloc_from_cases n sb (b + 1) d) [
    | inl (q, all) ↦ inl (
      rw (e, balloc_from) q,
      λ c le lt. used_next sb b c d e le (λ more. all c more (omega arith)),
    )
    | inr (r, q, f) ↦ inr (
      r,
      rw (e, balloc_from) q,
      record {
        from = omega (arith, f.from);
        below = omega (arith, f.below);
        free = f.free;
        used = λ c le lt. used_next sb b c d e le (λ more. f.used c more lt);
      },
    )
  ]
]

-- What `balloc` leaves of the device when it takes the block `r`.
pub record Took (d : Blocks) (r : ℕ) (d' : Blocks) : Type 0 where
  pub first : IsFirstFree (readsb d).size (readsb d) 0 d r
  pub same_super : readsb d' ≡ readsb d
  pub marked :
      (c : ℕ)
      → c < (readsb d).size
      → in_use (readsb d) d' c ≡ (if r == c then 1 else in_use (readsb d) d c)
  pub zeroed : (a : ℕ) → d' r a ≡ 0
  pub others : (c : ℕ) → c ≢ r → c ≢ bitmap_block r (readsb d).ninodes → d' c ≡ d c

taken : Blocks → ℕ → Blocks
taken d r = bzero r (change_bit with_bit (readsb d) r d)

module _ (d : Blocks) (r : ℕ) (v : IsLaidOut d)
    (f : IsFirstFree (readsb d).size (readsb d) 0 d r) where
  taken_off : (c : ℕ) → c ≢ r → c ≢ bitmap_block r (readsb d).ninodes → taken d r c ≡ d c
  unfolding taken bzero
  taken_off c ne off = ground (arith, ne, change_bit_blocks with_bit (readsb d) r d c off)

  taken_super : readsb (taken d r) ≡ readsb d
  unfolding readsb
  taken_super =
      let ne : 1 ≢ r = λ e. v.super_used (ap (in_use (readsb d) d) e ∙ f.free) in
      let same : taken d r 1 ≡ d 1 = taken_off 1 ne (λ e. omega (arith, e)) in rw same refl

  -- The bits are read from blocks that are not zeroed.
  bzero_bits :
      (c : ℕ) (e : Blocks)
      → c < (readsb d).size
      → in_use (readsb d) (bzero r e) c ≡ in_use (readsb d) e c
  unfolding in_use bzero
  bzero_bits c e lt =
      let ne : bitmap_block c (readsb d).ninodes ≢ r =
        λ q. v.bitmap_used c lt (ap (in_use (readsb d) d) q ∙ f.free) in
      ground (arith, ne)

  taken-Took : Took d r (taken d r)
  unfolding taken bzero
  taken-Took = record {
    first = f;
    same_super = taken_super;
    marked = λ c lt. bzero_bits c _ lt ∙ in_use-change_bit with_bit 1 (readsb d) r c d bit-with_bit;
    zeroed = λ a. ground arith;
    others = taken_off;
  }

-- If the superblock and the bitmap are marked as in use, `balloc` returns the first free block, unless
-- every block is in use. It marks that block and no other, fills it with zeros, and changes no
-- block but this one and that of its bit.
pub balloc_takes :
    (d : Blocks)
    → IsLaidOut d
    → ((balloc d ≡ none) × ((c : ℕ) → c < (readsb d).size → in_use (readsb d) d c ≢ 0))
      ⊎ ((r : ℕ) × (d' : Blocks) × (balloc d ≡ some (r, d')) × Took d r d')
unfolding balloc taken
balloc_takes d v = elim (balloc_from_cases (readsb d).size (readsb d) 0 d) [
  | inl (q, all) ↦ inl (q, λ c lt. all c (omega arith) (omega arith))
  | inr (r, q, f) ↦ inr (r, taken d r, q, taken-Took d r v f)
]

-- `bfree` of a block that was taken.
bfree-Took :
    (d : Blocks) (r : ℕ) (d' : Blocks)
    → Took d r d'
    → (d'' : Blocks) × (bfree r d' ≡ some d'')
      × ((c : ℕ) → c < (readsb d).size → in_use (readsb d) d'' c ≡ in_use (readsb d) d c)
unfolding bfree
bfree-Took d r d' t =
    let lt : r < (readsb d).size = omega (arith, t.first.below) in
    let marked : in_use (readsb d) d' r ≡ 1 = ground (arith, t.marked r lt) in
    (
      change_bit without_bit (readsb d) r d',
      ap (λ sb. if in_use sb d' r == 0 then none else some (change_bit without_bit sb r d'))
            t.same_super
          ∙ rw marked refl,
      λ c small.
          in_use-change_bit without_bit 0 (readsb d) r c d' bit-without_bit
          ∙ elim (ℕ_discrete r c) [
            | yes e ↦ ground (arith, ap (in_use (readsb d) d) e, t.first.free)
            | no ne ↦ ground (arith, ne, t.marked c small)
          ],
    )

-- A block that `balloc` has just taken can be freed, and then the same blocks are in use as before.
pub bfree-balloc :
    (d : Blocks) (r : ℕ) (d' : Blocks)
    → IsLaidOut d
    → balloc d ≡ some (r, d')
    → (d'' : Blocks) × (bfree r d' ≡ some d'')
      × ((c : ℕ) → c < (readsb d).size → in_use (readsb d) d'' c ≡ in_use (readsb d) d c)
bfree-balloc d r d' v e = elim (balloc_takes d v) [
  | inl (q, all) ↦ absurd (ground (arith, q, e))
  | inr (r1, d1, q, t) ↦
      let same : (r1, d1) ≡ (r, d') =
        ap (λ o. elim o [ none ↦ (r, d') | some x ↦ x ]) (sym q ∙ e) in
      bfree-Took d r d' (subst (λ (x : ℕ × Blocks). Took d x.0 x.1) same t)
]
