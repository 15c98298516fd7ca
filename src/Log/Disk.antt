-- ===== src/Log/Disk.antt =====
-- The disk, and the operations of log.c as the writes to the disk that they make, in order. A block is
-- the list of its words. `bread` gives what the disk holds and `bwrite` writes through it, so that
-- the buffer cache is not seen; a crash leaves the writes made so far.
use assignment.Prelude.{
  ℕ, zero, suc, ◌+◌, ◌-◌, Bool, true, false, not, ◌||◌, List, [], ◌∷◌, ◌++◌, Option, none, some,
  ◌==◌, leb, if◌then◌else◌, length, find_index,
}

abbrev pub Block : Type 0
Block = List ℕ

abbrev pub Disk : Type 0
Disk = ℕ → Block

-- One block to write, with its sector.
abbrev pub Write : Type 0
Write = ℕ × Block

-- `bwrite`
abbrev pub write : Disk → Write → Disk
write d (s, b) = λ t. if t == s then b else d t

abbrev pub apply : List Write → Disk → Disk
apply [] d = d
apply (w ∷ ws) d = apply ws (write d w)

-- `struct log`; `sectors` are those of the header in memory, and its `n` their number.
pub record Log : Type 0 where
  pub start : ℕ
  pub size : ℕ
  pub busy : Bool
  pub sectors : List ℕ

-- The words that are stored over the first ones of a block.
abbrev pub put_words : List ℕ → Block → Block
put_words [] b = b
put_words (w ∷ ws) [] = []
put_words (w ∷ ws) (c ∷ b) = w ∷ put_words ws b

abbrev pub get_words : ℕ → Block → List ℕ
get_words zero b = []
get_words (suc n) [] = []
get_words (suc n) (c ∷ b) = c ∷ get_words n b

-- The header that a block holds: the number of sectors and the sectors.
abbrev pub header_of : Block → List ℕ
header_of [] = []
header_of (n ∷ b) = get_words n b

-- `read_head`: the sectors that the header in memory gets.
unfoldable pub read_head : ℕ → Disk → List ℕ
read_head start d = header_of (d start)

-- `write_head`, with these sectors in the header in memory.
unfoldable pub write_head : ℕ → List ℕ → Disk → Write
write_head start sectors d = (start, put_words (length sectors ∷ sectors) (d start))

-- The loop of `install_trans` from `tail` on.
unfoldable pub install_from : ℕ → ℕ → List ℕ → Disk → List Write
install_from start tail [] d = []
install_from start tail (s ∷ ss) d =
    let w : Write = (s, d (start + tail + 1)) in w ∷ install_from start (tail + 1) ss (write d w)

-- `install_trans`
unfoldable pub install_trans : ℕ → List ℕ → Disk → List Write
install_trans start sectors d = install_from start 0 sectors d

-- The writes that both `recover_from_log` and `commit_trans` end with.
unfoldable pub install_and_clear : ℕ → List ℕ → Disk → List Write
install_and_clear start sectors d =
    let installs = install_trans start sectors d in
    installs ++ (write_head start [] (apply installs d) ∷ [])

-- `recover_from_log`
unfoldable pub recover_from_log : ℕ → Disk → List Write
recover_from_log start d = install_and_clear start (read_head start d) d

-- The writes of `commit_trans`, with these sectors in the header in memory.
unfoldable pub commit_writes : ℕ → List ℕ → Disk → List Write
commit_writes start [] d = []
commit_writes start (s ∷ ss) d =
    let w = write_head start (s ∷ ss) d in w ∷ install_and_clear start (s ∷ ss) (write d w)

-- `commit_trans`: the log, and the writes.
unfoldable pub commit_trans : Log → Disk → Log × List Write
commit_trans log d =
    (record log { busy = false; sectors = [] }, commit_writes log.start log.sectors d)

-- `begin_trans`, where it does not sleep: `none` is a transaction that is active.
unfoldable pub begin_trans : Log → Option Log
begin_trans log = if log.busy then none else some (record log { busy = true })

-- LOGSIZE
abbrev pub log_size : ℕ
log_size = 10

-- The index at which `log_write` puts the sector: the one where it stands, or the next free one.
abbrev pub slot_of : ℕ → List ℕ → ℕ
slot_of s sectors = elim (find_index (λ t. t == s) sectors) [ none ↦ length sectors | some i ↦ i ]

abbrev pub put_sector : ℕ → List ℕ → List ℕ
put_sector s sectors = elim (find_index (λ t. t == s) sectors) [
  | none ↦ sectors ++ (s ∷ [])
  | some i ↦ sectors
]

-- `log_write` of a buffer with this sector and data; `none` is a panic.
unfoldable pub log_write : ℕ → Block → Log → Option (Log × Write)
log_write s b log =
    if leb log_size (length log.sectors) || leb (log.size - 1) (length log.sectors)
    then none
    else (if not log.busy
        then none
        else some (
          record log { sectors = put_sector s log.sectors },
          (log.start + slot_of s log.sectors + 1, b),
        ))
