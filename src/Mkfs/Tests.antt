-- ===== src/Mkfs/Tests.antt =====
-- The theorems on mkfs.c at small images.
use assignment.Prelude.{ℕ, ◌≡◌, refl, List, [], ◌∷◌, some, arith, replicate}
use assignment.Fs.Dinode.{Dinode, IsDinode, read_dinode, get_words}
use assignment.Mkfs.Image.{Image, rsect, rinode, i2b}
use assignment.Mkfs.Append.{iappend}
use assignment.Mkfs.DirectLaws.{Appended, iappend_direct}
use assignment.Mkfs.Build.{main}
use assignment.Mkfs.BuildLaws.{Gives, IsMarked, main-IsMarked}

abbrev blank : Image
blank = record { disk = λ b a. 0; sectors = 1024; freeblock = 29; usedblocks = 29; freeinode = 1 }

abbrev no_file : Dinode
no_file = record { type = 0; major = 0; minor = 0; nlink = 0; size = 0; addrs = replicate 13 0 }

no_file-IsDinode : IsDinode no_file
no_file-IsDinode = record {
  type_fits = omega arith;
  major_fits = omega arith;
  minor_fits = omega arith;
  nlink_fits = omega arith;
  size_fits = omega arith;
  addrs_fit = ground arith;
  addrs_room = refl;
}

blank_inode : rinode 1 blank ≡ some no_file
unfolding rinode rsect i2b read_dinode get_words
blank_inode = refl

iappend_direct_example :
    (m' : Image) × (iappend 1 (7 ∷ 8 ∷ 9 ∷ []) blank ≡ some m')
    × Appended 1 29 (7 ∷ 8 ∷ 9 ∷ []) no_file blank m'
    × (m'.freeblock ≡ 30)
    × (m'.usedblocks ≡ 30)
iappend_direct_example =
    iappend_direct 1 0 7 (8 ∷ 9 ∷ []) no_file blank refl (omega arith) (omega arith)
      no_file-IsDinode (omega arith) (omega arith) (omega arith) blank_inode

-- A file "b" with the bytes 1 and 2.
abbrev files : List (List ℕ × List (List ℕ))
files = (98 ∷ [], (1 ∷ 2 ∷ []) ∷ []) ∷ []

main-IsMarked_example :
    Gives (IsMarked (λ b a. 0)) (main files (λ b a. 0))
    × ((m : Image) × (main [] (λ b a. 0) ≡ some m))
main-IsMarked_example = main-IsMarked files (λ b a. 0)
