-- ===== src/Fs/Tests.antt =====
-- The theorems on the file system at small disks.
use assignment.Prelude.{
  List, ℕ, zero, suc, ◌<◌, ◌≡◌, ◌≢◌, ◌⊎◌, refl, ap, true, false, [], ◌∷◌, ◌++◌, none, some, arith,
  get_elem?, replicate,
}
use assignment.Fs.Block.{Block, Blocks, update, bit, with_bit}
use assignment.Fs.Alloc.{readsb, bitmap_block, in_use, bzero, change_bit, balloc_from, balloc}
use assignment.Fs.AllocLaws.{IsLaidOut, Took, balloc_takes}
use assignment.Fs.Dinode.{Dinode, IsDinode}
use assignment.Fs.Monad.{Inode, Fs, ok, panics}
use assignment.Fs.MonadLaws.{Ensures}
use assignment.Fs.Inode.{iget, iupdate, load}
use assignment.Fs.InodeLaws.{IsUnique, IsAbsent, Got, iget-Got, load-iupdate}
use assignment.Fs.File.{Devsw, readi}
use assignment.Fs.FileLaws.{IsRead, readi-IsRead}
use assignment.Fs.Path.{slash, skipelem}
use assignment.Fs.PathLaws.{IsStored, skipelem_takes}

-- A superblock for 6 blocks and 8 inodes; the blocks before 5 are in use.
abbrev super_block : Block
super_block = update (update (λ a. 0) 0 6) 8 8

abbrev small : Blocks
small = update (update (λ b a. 0) 1 super_block) 4 (update (λ a. 0) 0 31)

small_super : readsb small ≡ record { size = 6; nblocks = 0; ninodes = 8; nlog = 0 }
unfolding readsb
small_super = refl

small_size : (readsb small).size ≡ 6
unfolding readsb
small_size = refl

bitmap_is : (c : ℕ) → c < 6 → bitmap_block c (readsb small).ninodes ≡ 4
unfolding readsb
bitmap_is c lt = omega arith

small_used : (in_use (readsb small) small 1 ≡ 1) × (in_use (readsb small) small 4 ≡ 1)
unfolding readsb in_use bit
small_used = (refl, refl)

small-IsLaidOut : IsLaidOut small
small-IsLaidOut = record {
  super = omega (arith, small_size);
  bitmap = λ c lt. omega (arith, bitmap_is c (omega (arith, lt, small_size)), small_size);
  super_used = λ e. omega (arith, e, small_used.0);
  bitmap_used = λ c lt e. omega (
    arith,
    e,
    small_used.1,
    ap (in_use (readsb small) small) (bitmap_is c (omega (arith, lt, small_size))),
  );
}

balloc_takes_example :
    ((balloc small ≡ none)
      × ((c : ℕ) → c < (readsb small).size → in_use (readsb small) small c ≢ 0))
    ⊎ ((r : ℕ) × (d : Blocks) × (balloc small ≡ some (r, d)) × Took small r d)
balloc_takes_example = balloc_takes small small-IsLaidOut

taken_five : balloc small ≡ some (5, bzero 5 (change_bit with_bit (readsb small) 5 small))
unfolding balloc balloc_from readsb in_use bit
taken_five = refl

-- A file of 5 bytes in the block 5, with one reference, and an entry that is free.
abbrev file_node : Dinode
file_node = record {
  type = 2;
  major = 0;
  minor = 0;
  nlink = 1;
  size = 5;
  addrs = 5 ∷ 0 ∷ 0 ∷ 0 ∷ 0 ∷ 0 ∷ 0 ∷ 0 ∷ 0 ∷ 0 ∷ 0 ∷ 0 ∷ 0 ∷ [];
}

abbrev file_inode : Inode
file_inode = record { dev = 1; inum = 3; ref = 1; busy = false; valid = true; node = file_node }

abbrev empty_inode : Inode
empty_inode = record (file_inode) { inum = 0; ref = 0; valid = false }

abbrev two_entries : Fs
two_entries = record { blocks = small; icache = file_inode ∷ empty_inode ∷ [] }

abbrev no_devices : Devsw
no_devices = record { read = λ major. none; write = λ major. none }

two_entries-IsUnique : IsUnique two_entries.icache
two_entries-IsUnique zero zero x y p q lx ly d n = refl
two_entries-IsUnique zero (suc zero) x y p q lx ly d n = absurd (ground (arith, q, ly))
two_entries-IsUnique (suc zero) j x y p q lx ly d n = absurd (ground (arith, p, lx))
two_entries-IsUnique zero (suc (suc j)) x y p q lx ly d n = absurd (ground (arith, q))
two_entries-IsUnique (suc (suc i)) j x y p q lx ly d n = absurd (ground (arith, p))

file_node-IsDinode : IsDinode file_node
file_node-IsDinode = record {
  type_fits = omega arith;
  major_fits = omega arith;
  minor_fits = omega arith;
  nlink_fits = omega arith;
  size_fits = omega arith;
  addrs_fit = ground arith;
  addrs_room = refl;
}

iget-Got_example :
    ((ip : ℕ) × (s' : Fs) × (iget 1 4 two_entries ≡ ok ip s') × Got 1 4 two_entries ip s')
    ⊎ ((iget 1 4 two_entries ≡ panics)
        × IsAbsent 1 4 two_entries.icache
        × ((j : ℕ) (x : Inode) → get_elem? two_entries.icache j ≡ some x → 0 < x.ref))
iget-Got_example = iget-Got 1 4 two_entries two_entries-IsUnique

load-iupdate_example :
    (s' : Fs) × (iupdate 0 two_entries ≡ ok tt s')
    × (s'' : Fs) × (load 0 s' ≡ ok tt s'')
    × (get_elem? s''.icache 0 ≡ some (record (file_inode) { valid = true }))
load-iupdate_example = load-iupdate 0 file_inode two_entries refl file_node-IsDinode (omega arith)

readi-IsRead_example : Ensures (λ r t. IsRead 5 2 10 r) (readi no_devices 0 2 10 two_entries)
readi-IsRead_example = readi-IsRead no_devices 0 2 10 file_inode two_entries refl (omega arith)

-- "//a//b"
skipelem_takes_example :
    (name' : List ℕ) × IsStored (97 ∷ []) (replicate 14 5) name'
    × (skipelem
          (replicate 2 slash ++ (97 ∷ ([] ++ (slash ∷ (replicate 1 slash ++ (98 ∷ []))))))
          (replicate 14 5)
        ≡ some (98 ∷ [], name'))
    × (skipelem (replicate 2 slash ++ (97 ∷ [])) (replicate 14 5) ≡ some ([], name'))
    × (skipelem (replicate 2 slash) (replicate 14 5) ≡ none)
skipelem_takes_example =
    skipelem_takes 2 1 97 [] (98 ∷ []) (replicate 14 5) (omega arith, tt) (omega arith) refl
