-- ===== src/Fs/Dir.antt =====
-- Directories (fs.c): files of 16-byte entries.
use assignment.Prelude.{
  ℕ, zero, suc, ◌+◌, ◌*◌, ◌/◌, ◌%◌, List, [], ◌∷◌, Option, none, some, ℤ, pos, minus_one, ◌==◌,
  ◌==ℤ◌, if◌then◌else◌, replicate,
}
use assignment.CString.{strncmp, strncpy}
use assignment.Fs.Monad.{M, ◌>>=◌, ◌>>◌, return, panic, lift, inode}
use assignment.Fs.Inode.{iget}
use assignment.Fs.Map.{iput}
use assignment.Fs.File.{Devsw, t_dir, readi, writei}

-- DIRSIZ, and `sizeof(de)`
abbrev pub dir_size : ℕ
dir_size = 14

abbrev pub dirent_size : ℕ
dirent_size = 16

-- `struct dirent`: a name fills its 14 bytes, or ends at a zero.
pub record Dirent : Type 0 where
  pub inum : ℕ
  pub name : List ℕ

-- The entry that 16 bytes hold, and its bytes.
unfoldable pub dirent_of : List ℕ → Dirent
dirent_of (a ∷ b ∷ name) = record { inum = a + 256 * b; name = name }
dirent_of _ = record { inum = 0; name = [] }

unfoldable pub bytes_of : Dirent → List ℕ
bytes_of de = (de.inum % 256) ∷ (de.inum / 256 % 256) ∷ de.name

unfoldable pub namecmp : List ℕ → List ℕ → Option ℤ
namecmp s t = strncmp s t dir_size

-- The rounds of `for(off = 0; off < dp->size; off += sizeof(de))`.
abbrev pub rounds : ℕ → ℕ
rounds size = (size + 15) / dirent_size

module _ (devsw : Devsw) where
  -- `readi` of one entry, which panics if it is not read whole.
  unfoldable pub read_dirent : ℕ → ℕ → M Dirent
  read_dirent dp off = do
    r ← readi devsw dp off dirent_size
    if r.0 ==ℤ pos 16 then return (dirent_of r.1) else panic

  -- The loop of `dirlookup` from the offset `off` on, with `n` entries left.
  unfoldable pub lookup_from : ℕ → ℕ → List ℕ → ℕ → M (Option (ℕ × ℕ))
  lookup_from zero dp name off = return none
  lookup_from (suc n) dp name off = do
    de ← read_dirent dp off
    if de.inum == 0 then lookup_from n dp name (off + dirent_size) else (do
      c ← lift (namecmp name de.name)
      if c ==ℤ pos 0
          then (do i ← inode dp; ip ← iget i.dev de.inum; return (some (ip, off)))
          else lookup_from n dp name (off + dirent_size))

  -- `dirlookup`: the inode of the name, and the offset of its entry.
  unfoldable pub dirlookup : ℕ → List ℕ → M (Option (ℕ × ℕ))
  dirlookup dp name = do
    i ← inode dp
    if i.node.type == t_dir then lookup_from (rounds (i.node.size)) dp name 0 else panic

  -- The loop of `dirlink`: the offset of the first empty entry, or the end.
  unfoldable pub empty_from : ℕ → ℕ → ℕ → M ℕ
  empty_from zero dp off = return off
  empty_from (suc n) dp off = do
    de ← read_dirent dp off
    if de.inum == 0 then return off else empty_from n dp (off + dirent_size)

  -- The end of `dirlink`: the entry is written at `off`.
  unfoldable pub write_dirent : ℕ → List ℕ → ℕ → ℕ → M ℤ
  write_dirent dp name inum off = do
    name' ← lift (strncpy (replicate dir_size 0) name dir_size)
    r ← writei devsw dp (bytes_of (record { inum = inum; name = name' })) off
    if r ==ℤ pos 16 then return (pos 0) else panic

  unfoldable pub dirlink : ℕ → List ℕ → ℕ → M ℤ
  dirlink dp name inum = do
    found ← dirlookup dp name
    elim found [
      | some (ip, off) ↦ do iput ip; return minus_one
      | none ↦ do
        i ← inode dp
        off ← empty_from (rounds (i.node.size)) dp 0
        write_dirent dp name inum off
    ]
