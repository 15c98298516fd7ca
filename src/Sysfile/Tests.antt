-- ===== src/Sysfile/Tests.antt =====
-- The theorems on directories, descriptors and open files at a small disk.
use assignment.Prelude.{
  ℕ, zero, suc, ◌*◌, ◌<◌, ◌≡◌, ◌⊎◌, refl, true, List, [], ◌∷◌, ◌++◌, Option, none, some, ℤ, pos,
  minus_one, arith, ◌==◌, if◌then◌else◌, get_elem?, replicate,
}
use assignment.Kernel.{File, fd_none}
use assignment.CString.{strncmp}
use assignment.Fs.Block.{Block, update}
use assignment.Fs.Dinode.{Dinode}
use assignment.Fs.Monad.{Inode, Fs, ok, ◌>>=◌, return}
use assignment.Fs.Inode.{iget}
use assignment.Fs.Map.{addr_or_alloc, bmap}
use assignment.Fs.File.{Devsw, slice, overwrite, read_from, read_file, readi}
use assignment.Fs.Dir.{Dirent, dirent_of, bytes_of, namecmp, read_dirent, dirlookup}
use assignment.Fs.DirLaws.{HasEntries, IsMatch, IsMiss, dirlookup_first}
use assignment.Syscall.Args.{User, fetchint, argint}
use assignment.Sysfile.Files.{Pipes}
use assignment.Sysfile.Calls.{argfd, sys_dup, sys_close}
use assignment.Sysfile.FilesLaws.{close-dup}

-- A directory with ".", ".." and "a", whose block is 5.
abbrev entry : ℕ → List ℕ → Dirent
entry inum name = record { inum = inum; name = name ++ replicate 12 0 }

abbrev entries : ℕ → Dirent
entries zero = entry 1 (46 ∷ 0 ∷ [])
entries (suc zero) = entry 1 (46 ∷ 46 ∷ [])
entries (suc (suc k)) = entry 2 (97 ∷ 0 ∷ [])

abbrev dir_block : Block
dir_block =
    overwrite 0 (bytes_of (entries 0) ++ (bytes_of (entries 1) ++ bytes_of (entries 2))) (λ a. 0)

abbrev dir_node : Dinode
dir_node = record {
  type = 1;
  major = 0;
  minor = 0;
  nlink = 1;
  size = 48;
  addrs = 5 ∷ replicate 12 0;
}

abbrev dir_inode : Inode
dir_inode = record { dev = 1; inum = 1; ref = 1; busy = true; valid = true; node = dir_node }

abbrev dir_disk : Fs
dir_disk = record { blocks = update (λ b a. 0) 5 dir_block; icache = dir_inode ∷ [] }

abbrev no_devices : Devsw
no_devices = record { read = λ major. none; write = λ major. none }

abbrev no_pipes : Pipes
no_pipes = record {
  close = λ p w. return tt;
  read = λ p n. return (minus_one, []);
  write = λ p cs. return minus_one;
}

dir_disk-HasEntries : HasEntries no_devices 0 dir_disk 3 entries
unfolding read_dirent readi read_file read_from bmap addr_or_alloc slice overwrite bytes_of
    dirent_of
dir_disk-HasEntries zero lt = refl
dir_disk-HasEntries (suc zero) lt = refl
dir_disk-HasEntries (suc (suc zero)) lt = refl
dir_disk-HasEntries (suc (suc (suc k))) lt = absurd (omega (arith, lt))

-- What `namecmp` gives for "a".
abbrev compared : ℕ → ℤ
compared zero = pos 51
compared (suc zero) = pos 51
compared (suc (suc k)) = pos 0

compared_lem : (k : ℕ) → k < 3 → namecmp (97 ∷ replicate 13 0) (entries k).name ≡ some (compared k)
unfolding namecmp strncmp
compared_lem zero lt = refl
compared_lem (suc zero) lt = refl
compared_lem (suc (suc k)) lt = refl

dirlookup_first_example :
    ((dirlookup no_devices 0 (97 ∷ replicate 13 0) dir_disk ≡ ok none dir_disk)
      × ((k : ℕ) → k < 3 → IsMiss entries compared k))
    ⊎ ((k : ℕ) × (k < 3)
        × IsMatch entries compared k
        × ((i : ℕ) → i < k → IsMiss entries compared i)
        × (dirlookup no_devices 0 (97 ∷ replicate 13 0) dir_disk
            ≡ (iget 1 (entries k).inum >>= λ ip. return (some (ip, k * 16))) dir_disk))
dirlookup_first_example =
    dirlookup_first no_devices 0 dir_inode dir_disk entries (97 ∷ replicate 13 0) compared refl refl
      dir_disk-HasEntries compared_lem

-- A process with the descriptor 1 open, whose call has the argument 1; and a call with 0.
abbrev one_file : File
one_file = record {
  type = fd_none;
  ref = 1;
  readable = true;
  writable = true;
  pipe = none;
  ip = none;
  off = 0;
}

abbrev with_arg : ℕ → User
with_arg n = record { sz = 64; esp = 0; mem = λ a. if a == 4 then n else 0 }

one_open : argfd 0 (with_arg 1) (none ∷ some 0 ∷ []) ≡ some (1, 0)
unfolding argfd argint fetchint
one_open = refl

arg_zero : argint 0 (with_arg 0) ≡ some 0
unfolding argint fetchint
arg_zero = refl

close-dup_example :
    (ofile' : List (Option ℕ)) × (files' : List File) × (sys_dup
        (with_arg 1)
        (none ∷ some 0 ∷ [])
        (one_file ∷ [])
        dir_disk
      ≡ ok (pos 0, ofile', files') dir_disk)
    × (get_elem? ofile' 0 ≡ some (some 0))
    × (get_elem? files' 0 ≡ some (record (one_file) { ref = 2 }))
    × (sys_close no_devices no_pipes (with_arg 0) ofile' files' dir_disk
        ≡ ok (pos 0, none ∷ some 0 ∷ [], one_file ∷ []) dir_disk)
close-dup_example =
    close-dup no_devices no_pipes (with_arg 1) (with_arg 0) (none ∷ some 0 ∷ []) (one_file ∷ [])
      dir_disk 1 0 0 one_file one_open refl (omega arith) refl (omega arith) arg_zero
