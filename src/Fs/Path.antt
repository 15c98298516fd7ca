-- ===== src/Fs/Path.antt =====
-- Path names (fs.c). A path is the list of its characters before the zero; a name is the buffer of
-- DIRSIZ bytes that `skipelem` fills.
use assignment.Prelude.{
  ℕ, zero, suc, ◌+◌, Bool, true, false, ◌&&◌, List, [], ◌∷◌, ◌++◌, Option, none, some, ◌==◌, leb,
  if◌then◌else◌, length, take,
}
use assignment.Fs.Monad.{M, ◌>>=◌, ◌>>◌, return, panic, inode}
use assignment.Fs.Inode.{iget, idup, ilock, iunlock}
use assignment.Fs.Map.{iput, iunlockput}
use assignment.Fs.File.{Devsw, t_dir}
use assignment.Fs.Dir.{dir_size, dirlookup}

abbrev pub slash : ℕ
slash = 47

-- `while(*path == '/') path++;`
unfoldable pub skip_slashes : List ℕ → List ℕ
skip_slashes [] = []
skip_slashes (c ∷ cs) = if c == slash then skip_slashes cs else c ∷ cs

-- `while(*path != '/' && *path != 0) path++;`: what it passes, and where it ends.
unfoldable pub elem_of : List ℕ → List ℕ
elem_of [] = []
elem_of (c ∷ cs) = if c == slash then [] else c ∷ elem_of cs

unfoldable pub after_elem : List ℕ → List ℕ
after_elem [] = []
after_elem (c ∷ cs) = if c == slash then c ∷ cs else after_elem cs

-- Bytes that are stored over the first ones of a buffer.
unfoldable pub overlay : List ℕ → List ℕ → List ℕ
overlay [] name = name
overlay (c ∷ cs) [] = []
overlay (c ∷ cs) (d ∷ name) = c ∷ overlay cs name

-- `memmove(name, s, …)`, with the zero if it fits
unfoldable pub store_name : List ℕ → List ℕ → List ℕ
store_name s name =
    if leb dir_size (length s) then overlay (take dir_size s) name else overlay (s ++ (0 ∷ [])) name

-- `skipelem`: the rest of the path, and the name.
unfoldable pub skipelem : List ℕ → List ℕ → Option (List ℕ × List ℕ)
skipelem path name = elim (skip_slashes path) [
  | [] ↦ none
  | c ∷ cs ↦ some (skip_slashes (after_elem (c ∷ cs)), store_name (elem_of (c ∷ cs)) name)
]

abbrev pub is_end : List ℕ → Bool
is_end [] = true
is_end (c ∷ cs) = false

-- ROOTDEV and ROOTINO
abbrev pub root_dev : ℕ
root_dev = 1

abbrev pub root_ino : ℕ
root_ino = 1

-- Where the walk begins; `cwd` is that of the process.
unfoldable pub walk_start : ℕ → List ℕ → M ℕ
walk_start cwd [] = idup cwd
walk_start cwd (c ∷ path) = if c == slash then iget root_dev root_ino else idup cwd

module _ (devsw : Devsw) where
  -- The body of the loop of `namex` at the inode `ip`, with the name that was taken; `go` is the loop
  -- from the next inode on.
  unfoldable pub enter :
      (ℕ → M (Option (ℕ × List ℕ))) → Bool → ℕ → Bool → List ℕ → M (Option (ℕ × List ℕ))
  enter go parent ip last name = do
    ilock ip
    i ← inode ip
    if i.node.type == t_dir
        then (if parent && last then (iunlock ip >> return (some (ip, name))) else (do
          next ← dirlookup devsw ip name
          iunlockput ip
          elim next [ none ↦ return none | some (ip', off) ↦ go ip' ]))
        else (iunlockput ip >> return none)

  -- The loop, with `ip` the inode that is reached: the result, and the last name. The fuel is above the
  -- length of the path, which falls in each round.
  unfoldable pub walk : ℕ → Bool → ℕ → List ℕ → List ℕ → M (Option (ℕ × List ℕ))
  walk zero parent ip path name = panic
  walk (suc fuel) parent ip path name = elim (skipelem path name) [
    | none ↦ if parent then (iput ip >> return none) else return (some (ip, name))
    | some (path', name') ↦
        enter (λ ip'. walk fuel parent ip' path' name') parent ip (is_end path') name'
  ]

  -- `namex`, with what the buffer `name` holds before.
  unfoldable pub namex : ℕ → Bool → List ℕ → List ℕ → M (Option (ℕ × List ℕ))
  namex cwd parent path name = do
    ip ← walk_start cwd path
    walk (length path + 1) parent ip path name

  unfoldable pub namei : ℕ → List ℕ → List ℕ → M (Option (ℕ × List ℕ))
  namei cwd path junk = namex cwd false path junk

  unfoldable pub nameiparent : ℕ → List ℕ → List ℕ → M (Option (ℕ × List ℕ))
  nameiparent cwd path name = namex cwd true path name
