-- ===== src/Sysfile/Open.antt =====
-- `sys_open` and the part of `sys_pipe` that finds descriptors (sysfile.c).
use assignment.Prelude.{
  ℕ, ◌/◌, ◌%◌, Bool, ◌&&◌, ◌||◌, not, List, Option, none, some, ℤ, pos, minus_one, ◌==◌,
  if◌then◌else◌, modify,
}
use assignment.Kernel.{File, fd_inode}
use assignment.File.{filealloc}
use assignment.Fs.Monad.{M, ◌>>=◌, ◌>>◌, return, inode}
use assignment.Fs.Inode.{ilock, iunlock}
use assignment.Fs.Map.{iunlockput}
use assignment.Fs.File.{Devsw, t_dir}
use assignment.Fs.Path.{namei}
use assignment.Syscall.Args.{User, argint, argchars}
use assignment.Sysfile.Files.{Pipes, fileclose}
use assignment.Sysfile.Calls.{fdalloc}
use assignment.Sysfile.Names.{t_file, no_name, create}

-- The bits of `omode`: O_WRONLY, O_RDWR, O_CREATE
abbrev pub is_write_only : ℕ → Bool
is_write_only omode = omode % 2 == 1

abbrev pub is_read_write : ℕ → Bool
is_read_write omode = omode / 2 % 2 == 1

abbrev pub is_create : ℕ → Bool
is_create omode = omode / 512 % 2 == 1

-- The file that `sys_open` fills in.
abbrev pub opened : ℕ → ℕ → File → File
opened ip omode f = record f {
  type = fd_inode;
  ip = some ip;
  off = 0;
  readable = not (is_write_only omode);
  writable = is_write_only omode || is_read_write omode;
}

module _ (devsw : Devsw) (pipes : Pipes) where
  -- The locked inode that `sys_open` opens.
  unfoldable pub open_inode : ℕ → List ℕ → ℕ → M (Option ℕ)
  open_inode cwd path omode = if is_create omode then create devsw cwd path t_file 0 0 else (do
    found ← namei devsw cwd path no_name
    elim found [
      | none ↦ return none
      | some (ip, name) ↦ do
        ilock ip
        i ← inode ip
        if i.node.type == t_dir && not (omode == 0)
            then (iunlockput ip >> return none)
            else return (some ip)
    ])

  -- `sys_open` with its inode: a file and a descriptor are found for it.
  unfoldable pub open_file :
      ℕ → ℕ → List (Option ℕ) → List File → M (ℤ × List (Option ℕ) × List File)
  open_file ip omode ofile files =
      let (slot, files') = filealloc files in
      elim slot [
        | none ↦ iunlockput ip >> return (minus_one, ofile, files)
        | some f ↦ elim (fdalloc f ofile) [
          | none ↦ do
            files'' ← fileclose devsw pipes f files'
            iunlockput ip
            return (minus_one, ofile, files'')
          | some (fd, ofile') ↦ do
            iunlock ip
            return (pos fd, ofile', modify files' f (opened ip omode))
        ]
      ]

  -- `sys_open`: the result, the descriptors and the files.
  unfoldable pub sys_open :
      ℕ → User → List (Option ℕ) → List File → M (ℤ × List (Option ℕ) × List File)
  sys_open cwd u ofile files = elim (argchars 0 u) [
    | none ↦ return (minus_one, ofile, files)
    | some path ↦ elim (argint 1 u) [
      | none ↦ return (minus_one, ofile, files)
      | some omode ↦ do
        found ← open_inode cwd path omode
        elim found [
          | none ↦ return (minus_one, ofile, files)
          | some ip ↦ open_file ip omode ofile files
        ]
    ]
  ]

  -- `sys_pipe` with the files of the two ends: the two descriptors.
  unfoldable pub pipe_descriptors :
      ℕ → ℕ → List (Option ℕ) → List File → M (Option (ℕ × ℕ) × List (Option ℕ) × List File)
  pipe_descriptors rf wf ofile files = elim (fdalloc rf ofile) [
    | none ↦ do
      files' ← fileclose devsw pipes rf files
      files'' ← fileclose devsw pipes wf files'
      return (none, ofile, files'')
    | some (fd0, ofile') ↦ elim (fdalloc wf ofile') [
      | none ↦ do
        files' ← fileclose devsw pipes rf files
        files'' ← fileclose devsw pipes wf files'
        return (none, modify ofile' fd0 (λ _. none), files'')
      | some (fd1, ofile'') ↦ return (some (fd0, fd1), ofile'', files)
    ]
  ]
