-- ===== src/Bio/CacheLaws.antt =====
-- One buffer for each block (bio.c).
use assignment.Prelude.{
  ℕ, zero, suc, ◌≡◌, ◌≢◌, ◌⊎◌, inl, inr, refl, sym, ◌∙◌, true, false, List, none, some, arith,
  Bool-cases, Option-cases, ℕ_discrete, get_elem?, modify, find_index, find_index-some,
  find_index-none, get_elem?-modify_self, get_elem?-modify_ne, get_elem?-modify_inv,
}
use assignment.Bio.Cache.{
  Buf, Cache, ok, sleeps, panics, is_for, is_clean, find_last, recycle, at_place, bget, binit,
}
use assignment.Bio.FindLaws.{find_last-some, find_last-none}

-- No block of the disk 1 has two buffers.
abbrev pub IsUnique : List Buf → Type 0
IsUnique bufs =
    (i j : ℕ) (x y : Buf)
    → get_elem? bufs i ≡ some x
    → get_elem? bufs j ≡ some y
    → x.dev ≡ 1
    → y.dev ≡ 1
    → x.sector ≡ y.sector
    → i ≡ j

taken : Buf → Buf
taken b = record b { busy = true }

taken-IsUnique : (bufs : List Buf) (i : ℕ) → IsUnique bufs → IsUnique (modify bufs i taken)
unfolding taken
taken-IsUnique bufs k u i j x y p q dx dy e =
    let a = get_elem?-modify_inv bufs k i taken x p in
    let b = get_elem?-modify_inv bufs k j taken y q in
    u i j a.0 b.0 a.1 b.1 (ground (arith, a.2, dx)) (ground (arith, b.2, dy))
      (ground (arith, a.2, b.2, e))

recycle-IsUnique :
    (sector : ℕ) (bufs : List Buf) (k : ℕ)
    → IsUnique bufs
    → find_index (is_for 1 sector) bufs ≡ none
    → IsUnique (modify bufs k (recycle 1 sector))
recycle-IsUnique sector bufs k u absent i j x y p q dx dy e =
    let a = get_elem?-modify_inv bufs k i (recycle 1 sector) x p in
    let b = get_elem?-modify_inv bufs k j (recycle 1 sector) y q in
    elim (ℕ_discrete k i) [
      | yes p_new ↦ elim (ℕ_discrete k j) [
        | yes q_new ↦ sym p_new ∙ q_new
        | no q_old ↦ absurd (
            ground (
              arith,
              find_index-none (is_for 1 sector) bufs j b.0 absent b.1,
              b.2,
              a.2,
              p_new,
              q_old,
              dy,
              e,
            ))
      ]
      | no p_old ↦ elim (ℕ_discrete k j) [
        | yes q_new ↦ absurd (
            ground (
              arith,
              find_index-none (is_for 1 sector) bufs i a.0 absent a.1,
              a.2,
              b.2,
              p_old,
              q_new,
              dx,
              e,
            ))
        | no q_old ↦
            u i j x y (ground (arith, a.1, a.2, p_old)) (ground (arith, b.1, b.2, q_old)) dx dy e
      ]
    ]

-- The sector has no buffer.
abbrev pub IsAbsent : ℕ → List Buf → Type 0
IsAbsent sector bufs = (j : ℕ) (x : Buf) → get_elem? bufs j ≡ some x → x.dev ≡ 1 → x.sector ≢ sector

absent_lem :
    (sector : ℕ) (bufs : List Buf) → find_index (is_for 1 sector) bufs ≡ none → IsAbsent sector bufs
absent_lem sector bufs e j x at d n =
    ground (arith, find_index-none (is_for 1 sector) bufs j x e at, d, n)

full_lem :
    (bufs : List Buf)
    → find_last is_clean bufs ≡ none
    → (j : ℕ) (x : Buf) → get_elem? bufs j ≡ some x
    → (x.busy ≡ true) ⊎ (x.dirty ≡ true)
full_lem bufs e j x at =
    let h = find_last-none is_clean bufs j x e at in
    elim (Bool-cases x.busy) [ inl b ↦ inl b | inr b ↦ inr (ground (arith, h, b)) ]

-- What becomes of the buffer that `bget` returns: that of the sector is locked and otherwise as it
-- was; or the sector had no buffer, this one was not dirty, and it is now that of the sector, with
-- B_BUSY as its only flag.
abbrev pub IsTaken : ℕ → List Buf → Buf → Buf → Type 0
IsTaken sector bufs before buf =
    ((before.dev ≡ 1) × (before.sector ≡ sector) × (buf ≡ record before { busy = true }))
    ⊎ (IsAbsent sector bufs
        × (before.dirty ≡ false)
        × (buf ≡ record before {
          dev = 1;
          sector = sector;
          busy = true;
          valid = false;
          dirty = false;
        }))

-- What a `bget` of a sector of disk 1 gives.
pub record Got (sector : ℕ) (s : Cache) (slot : ℕ) (s' : Cache) : Type 0 where
  pub place : ℕ
  pub buf : Buf
  pub before : Buf
  pub at : get_elem? s'.bufs place ≡ some buf
  pub was : get_elem? s.bufs place ≡ some before
  pub is_slot : before.slot ≡ slot
  pub free : before.busy ≡ false
  pub taken : IsTaken sector s.bufs before buf
  pub still_unique : IsUnique s'.bufs
  pub others : (j : ℕ) → place ≢ j → get_elem? s'.bufs j ≡ get_elem? s.bufs j
  pub same_disk : s'.disk ≡ s.disk

-- A `bget` of a sector of disk 1 keeps one buffer at most for each sector. If the sector has a buffer
-- that is not busy, it locks that one and changes nothing else in it; if the sector has none, it
-- takes a buffer that was neither busy nor dirty and makes it a busy one of the sector that is
-- neither valid nor dirty. It changes no other buffer and not the disk. It sleeps on the buffer of
-- the sector if that is busy, and it panics only because the sector has no buffer and every buffer
-- is busy or dirty.
pub bget-Got :
    (sector : ℕ) (s : Cache)
    → IsUnique s.bufs
    → ((slot : ℕ) × (s' : Cache) × (bget 1 sector s ≡ ok slot s') × Got sector s slot s')
      ⊎ ((i : ℕ) × (b : Buf) × (get_elem? s.bufs i ≡ some b)
          × (b.dev ≡ 1)
          × (b.sector ≡ sector)
          × (b.busy ≡ true)
          × (bget 1 sector s ≡ sleeps b.slot))
      ⊎ ((bget 1 sector s ≡ panics)
          × IsAbsent sector s.bufs
          × ((j : ℕ) (x : Buf) → get_elem? s.bufs j ≡ some x → (x.busy ≡ true) ⊎ (x.dirty ≡ true)))
unfolding bget taken
bget-Got sector s u = elim (Option-cases (find_index (is_for 1 sector) s.bufs)) [
  | inr (i, e) ↦
      let (b, at, mine) = find_index-some (is_for 1 sector) s.bufs i e in
      elim (Bool-cases b.busy) [
        | inl locked ↦ inr (
            inl (
              i,
              b,
              at,
              ground (arith, mine),
              ground (arith, mine),
              locked,
              rw (e, bget) (rw at (rw locked refl)),
            ))
        | inr free ↦ inl (
          b.slot,
          record s { bufs = modify s.bufs i taken },
          rw (e, bget) (rw at (rw free (rw (at, at_place) refl))),
          record {
            place = i;
            buf = taken b;
            before = b;
            at = get_elem?-modify_self s.bufs i taken at;
            was = at;
            is_slot = refl;
            free = free;
            taken = inl (ground (arith, mine), ground (arith, mine), refl);
            still_unique = taken-IsUnique s.bufs i u;
            others = λ j ne. get_elem?-modify_ne s.bufs i j taken ne;
            same_disk = refl;
          },
        )
      ]
  | inl absent ↦ elim (Option-cases (find_last is_clean s.bufs)) [
    | inl full ↦ inr (
        inr (
          rw (absent, bget) (rw (full, bget) refl),
          absent_lem sector s.bufs absent,
          full_lem s.bufs full,
        ))
    | inr (i, e) ↦
        let (b, at, clean) = find_last-some is_clean s.bufs i e in
        inl (
          b.slot,
          record s { bufs = modify s.bufs i (recycle 1 sector) },
          rw (absent, bget) (rw (e, bget) (rw (at, at_place) refl)),
          record {
            place = i;
            buf = recycle 1 sector b;
            before = b;
            at = get_elem?-modify_self s.bufs i (recycle 1 sector) at;
            was = at;
            is_slot = refl;
            free = ground (arith, clean);
            taken = inr (absent_lem sector s.bufs absent, ground (arith, clean), refl);
            still_unique = recycle-IsUnique sector s.bufs i u absent;
            others = λ j ne. get_elem?-modify_ne s.bufs i j (recycle 1 sector) ne;
            same_disk = refl;
          },
        )
  ]
]

binit_dev : (n i : ℕ) (x : Buf) → get_elem? (binit n) i ≡ some x → x.dev ≡ 4294967295
unfolding binit
binit_dev zero i x e = ground (arith, e)
binit_dev (suc n) zero x e = ground (arith, e)
binit_dev (suc n) (suc i) x e = binit_dev n i x e

pub binit-IsUnique : (n : ℕ) → IsUnique (binit n)
binit-IsUnique n i j x y p q dx dy e = absurd (omega (arith, binit_dev n i x p, dx))
