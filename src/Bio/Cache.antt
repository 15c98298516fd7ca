-- ===== src/Bio/Cache.antt =====
-- The buffer cache (bio.c) over the disk of memide.c. The list by `next` from `bcache.head` on is a list of
-- buffers, the most recently used one first; a pointer to a buffer is its place in `bcache.buf`.
use assignment.Prelude.{
  ℕ, zero, suc, Bool, true, false, ◌&&◌, not, List, [], ◌∷◌, Option, none, some, ◌==◌, leb,
  if◌then◌else◌, get_elem?, modify, find_index,
}
use assignment.Fs.Block.{Block, Blocks, update}

-- `struct buf`, with its place and its flags B_BUSY, B_VALID and B_DIRTY
pub record Buf : Type 0 where
  pub slot : ℕ
  pub dev : ℕ
  pub sector : ℕ
  pub busy : Bool
  pub valid : Bool
  pub dirty : Bool
  pub contents : Block

-- The buffers, and `memdisk` with `disksize`.
pub record Cache : Type 0 where
  pub bufs : List Buf
  pub disk : Blocks
  pub disksize : ℕ

-- An operation that sleeps waits for a buffer.
pub data Result (A : Type 0) : Type 0 where
  ok : A → Cache → Result A
  sleeps : ℕ → Result A
  panics : Result A

-- The loop of `binit` over the first `n` buffers; each is put in front. The device is -1.
unfoldable pub binit : ℕ → List Buf
binit zero = []
binit (suc n) =
    record {
      slot = n;
      dev = 4294967295;
      sector = 0;
      busy = false;
      valid = false;
      dirty = false;
      contents = λ a. 0;
    }
    ∷ binit n

abbrev pub is_for : ℕ → ℕ → Buf → Bool
is_for dev sector b = b.dev == dev && b.sector == sector

abbrev pub is_clean : Buf → Bool
is_clean b = not b.busy && not b.dirty

-- The search from `bcache.head.prev` on: the last one that passes.
unfoldable pub find_last : (Buf → Bool) → List Buf → Option ℕ
find_last p [] = none
find_last p (b ∷ bs) = elim (find_last p bs) [
  | some i ↦ some (suc i)
  | none ↦ if p b then some 0 else none
]

abbrev pub recycle : ℕ → ℕ → Buf → Buf
recycle dev sector b = record b {
  dev = dev;
  sector = sector;
  busy = true;
  valid = false;
  dirty = false;
}

-- A change of the buffer at a place in the list, whose number is the result.
abbrev pub at_place : ℕ → (Buf → Buf) → Cache → Result ℕ
at_place i f s = elim (get_elem? s.bufs i) [
  | none ↦ panics
  | some b ↦ ok b.slot (record s { bufs = modify s.bufs i f })
]

-- `bget`, which sleeps on a buffer that is busy.
unfoldable pub bget : ℕ → ℕ → Cache → Result ℕ
bget dev sector s = elim (find_index (is_for dev sector) s.bufs) [
  | some i ↦ elim (get_elem? s.bufs i) [
    | none ↦ panics
    | some b ↦ if b.busy then sleeps b.slot else at_place i (λ b. record b { busy = true }) s
  ]
  | none ↦ elim (find_last is_clean s.bufs) [
    | none ↦ panics
    | some i ↦ at_place i (recycle dev sector) s
  ]
]

-- The buffer of a number.
abbrev pub place : ℕ → Cache → Option ℕ
place slot s = find_index (λ b. b.slot == slot) s.bufs

-- `iderw` (memide.c) of a buffer: the buffer and the disk.
unfoldable pub iderw : ℕ → Buf → Blocks → Option (Buf × Blocks)
iderw disksize b disk =
    if not b.busy
    then none
    else (if b.valid && not b.dirty
        then none
        else (if not (b.dev == 1)
            then none
            else (if leb disksize b.sector
                then none
                else (if b.dirty
                    then some (
                      record b { dirty = false; valid = true },
                      update disk (b.sector) (b.contents),
                    )
                    else some (record b { contents = disk b.sector; valid = true }, disk)))))

-- `iderw` of the buffer at a place in the list.
unfoldable pub transfer : ℕ → (Buf → Buf) → Cache → Result ℕ
transfer i f s = elim (get_elem? s.bufs i) [
  | none ↦ panics
  | some b ↦ elim (iderw s.disksize (f b) s.disk) [
    | none ↦ panics
    | some (b', disk') ↦ ok b.slot (record s { bufs = modify s.bufs i (λ _. b'); disk = disk' })
  ]
]

unfoldable pub bread : ℕ → ℕ → Cache → Result ℕ
bread dev sector s = elim (bget dev sector s) [
  | panics ↦ panics
  | sleeps slot ↦ sleeps slot
  | ok slot s' ↦ elim (place slot s') [
    | none ↦ panics
    | some i ↦ elim (get_elem? s'.bufs i) [
      | none ↦ panics
      | some b ↦ if b.valid then ok slot s' else transfer i (λ b. b) s'
    ]
  ]
]

unfoldable pub bwrite : ℕ → Cache → Result ℕ
bwrite slot s = elim (place slot s) [
  | none ↦ panics
  | some i ↦ elim (get_elem? s.bufs i) [
    | none ↦ panics
    | some b ↦ if not b.busy then panics else transfer i (λ b. record b { dirty = true }) s
  ]
]

-- The list without the buffer at a place.
unfoldable pub remove : ℕ → List Buf → List Buf
remove i [] = []
remove zero (b ∷ bs) = bs
remove (suc i) (b ∷ bs) = b ∷ remove i bs

-- `brelse`: the buffer is moved to the front. The wakeup is left out.
unfoldable pub brelse : ℕ → Cache → Result ℕ
brelse slot s = elim (place slot s) [
  | none ↦ panics
  | some i ↦ elim (get_elem? s.bufs i) [
    | none ↦ panics
    | some b ↦
        if not b.busy
        then panics
        else ok slot (record s { bufs = record b { busy = false } ∷ remove i s.bufs })
  ]
]
