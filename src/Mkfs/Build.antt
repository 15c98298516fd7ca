-- ===== src/Mkfs/Build.antt =====
-- mkfs.c, `main`: the image of a file system with the given files in its root directory. A file is
-- its name, without the zero at its end, and the bytes of each `read`; `open` does not fail.
use assignment.Prelude.{
  ℕ, zero, suc, ◌+◌, ◌*◌, ◌/◌, List, [], ◌∷◌, ◌++◌, Bool, false, ◌||◌, Option, none, some, ◌==◌,
  if◌then◌else◌, replicate,
}
use assignment.CString.{strncpy}
use assignment.Fs.Block.{Block, Blocks, put32, block_size}
use assignment.Fs.Dir.{dir_size, bytes_of}
use assignment.Mkfs.Image.{
  Image, ◌then_do◌, ninodes, inodes_per_block, xshort, xint, wsect, winode, rinode, ialloc, balloc,
}
use assignment.Mkfs.Append.{iappend}

-- The globals `nblocks`, `nlog` and `size`, and what `main` computes of them.
abbrev pub nblocks : ℕ
nblocks = 985

abbrev pub nlog : ℕ
nlog = 10

abbrev pub size : ℕ
size = 1024

abbrev pub bitblocks : ℕ
bitblocks = size / (512 * 8) + 1

abbrev pub first_block : ℕ
first_block = ninodes / inodes_per_block + 3 + bitblocks

-- T_DIR, T_FILE and ROOTINO
abbrev pub t_dir : ℕ
t_dir = 1

abbrev pub t_file : ℕ
t_file = 2

abbrev pub root_inum : ℕ
root_inum = 1

-- `for(i = 0; i < nblocks + usedblocks + nlog; i++) wsect(i, zeroes);`, from `i` on
unfoldable pub clear_from : ℕ → ℕ → Image → Image
clear_from zero i m = m
clear_from (suc n) i m = clear_from n (i + 1) (wsect i (λ a. 0) m)

-- The superblock.
unfoldable pub super : Block
super =
    put32 12 (xint nlog)
      (put32 8 (xint ninodes) (put32 4 (xint nblocks) (put32 0 (xint size) (λ a. 0))))

-- The image before its first inode. The file has been emptied; `d` is what its sectors would read as
-- if they were read before they are written.
unfoldable pub format : Blocks → Image
format d = wsect 1 super (
    clear_from (nblocks + first_block + nlog) 0 (record {
      disk = d;
      sectors = 0;
      freeblock = first_block;
      usedblocks = first_block;
      freeinode = 1;
    }))

-- An entry of the root directory, whose name `strcpy` or `strncpy` has copied into zeros; the host's
-- `strncpy` does what that of string.c does.
unfoldable pub enter : ℕ → List ℕ → Image → Option Image
enter inum name m = strncpy (replicate dir_size 0) (name ++ (0 ∷ [])) dir_size then_do λ padded.
    iappend root_inum (bytes_of (record { inum = xshort inum; name = padded })) m

unfoldable pub append_reads : ℕ → List (List ℕ) → Image → Option Image
append_reads inum [] m = some m
append_reads inum (cs ∷ reads) m = iappend inum cs m then_do append_reads inum reads

-- `index(name, '/') != 0`
unfoldable pub has_slash : List ℕ → Bool
has_slash [] = false
has_slash (c ∷ name) = c == 47 || has_slash name

-- `if(argv[i][0] == '_') ++argv[i];`
unfoldable pub skip_underscore : List ℕ → List ℕ
skip_underscore [] = []
skip_underscore (c ∷ name) = if c == 95 then name else c ∷ name

unfoldable pub add_file : List ℕ × List (List ℕ) → Image → Option Image
add_file (name, reads) m =
    if has_slash name
    then none
    else (ialloc t_file m then_do λ r.
        enter r.0 (skip_underscore name) r.1 then_do append_reads r.0 reads)

unfoldable pub add_files : List (List ℕ × List (List ℕ)) → Image → Option Image
add_files [] m = some m
add_files (f ∷ files) m = add_file f m then_do add_files files

-- The last part, which rounds the size of the root up.
unfoldable pub fix_root : Image → Option Image
fix_root m = rinode root_inum m then_do λ din.
    let off = (xint din.size / block_size + 1) * block_size in
    winode root_inum (record din { size = xint off }) m

unfoldable pub main : List (List ℕ × List (List ℕ)) → Blocks → Option Image
main files d =
    if nblocks + first_block + nlog == size
    then (ialloc t_dir (format d) then_do λ r.
        if r.0 == root_inum
        then (enter root_inum (46 ∷ []) r.1
            then_do enter root_inum (46 ∷ 46 ∷ [])
            then_do add_files files
            then_do fix_root
            then_do λ m. balloc m.usedblocks m)
        else none)
    else none
