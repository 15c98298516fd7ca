-- ===== src/Sysfile/Calls.antt =====
-- File descriptors and the system calls on them (sysfile.c). `ofile` is that of the caller.
use assignment.Prelude.{
  ℕ, Bool, true, false, List, [], Option, none, some, ℤ, pos, minus_one, leb, if◌then◌else◌,
  get_elem?, modify, find_index,
}
use assignment.Kernel.{File}
use assignment.Fs.Monad.{M, ◌>>=◌, return, lift}
use assignment.Fs.Inode.{Stat}
use assignment.Fs.File.{Devsw}
use assignment.File.{filedup}
use assignment.Syscall.Args.{User, argint, argptr, bytes_at}
use assignment.Sysfile.Files.{Pipes, fileclose, fileread, filewrite, filestat}

-- NOFILE, the length of `ofile`
abbrev pub nofile : ℕ
nofile = 16

abbrev pub is_null : Option ℕ → Bool
is_null none = true
is_null (some f) = false

-- `argfd`: the descriptor and its file. A negative one is a word from 2^31 on.
unfoldable pub argfd : ℕ → User → List (Option ℕ) → Option (ℕ × ℕ)
argfd n u ofile = elim (argint n u) [
  | none ↦ none
  | some fd ↦ if leb nofile fd then none else elim (get_elem? ofile fd) [
    | none ↦ none
    | some f ↦ elim f [ none ↦ none | some i ↦ some (fd, i) ]
  ]
]

-- `fdalloc`
unfoldable pub fdalloc : ℕ → List (Option ℕ) → Option (ℕ × List (Option ℕ))
fdalloc f ofile = elim (find_index is_null ofile) [
  | none ↦ none
  | some fd ↦ some (fd, modify ofile fd (λ _. some f))
]

-- `sys_dup`: the result, the descriptors and the files.
unfoldable pub sys_dup : User → List (Option ℕ) → List File → M (ℤ × List (Option ℕ) × List File)
sys_dup u ofile files = elim (argfd 0 u ofile) [
  | none ↦ return (minus_one, ofile, files)
  | some (fd0, f) ↦ elim (fdalloc f ofile) [
    | none ↦ return (minus_one, ofile, files)
    | some (fd, ofile') ↦ do files' ← lift (filedup f files); return (pos fd, ofile', files')
  ]
]

unfoldable pub sys_fstat : User → List (Option ℕ) → List File → M (Option Stat)
sys_fstat u ofile files = elim (argfd 0 u ofile) [
  | none ↦ return none
  | some (fd, f) ↦ elim (argptr 1 20 u) [ none ↦ return none | some st ↦ filestat f files ]
]

module _ (devsw : Devsw) (pipes : Pipes) where
  unfoldable pub sys_close :
      User → List (Option ℕ) → List File → M (ℤ × List (Option ℕ) × List File)
  sys_close u ofile files = elim (argfd 0 u ofile) [
    | none ↦ return (minus_one, ofile, files)
    | some (fd, f) ↦ do
      files' ← fileclose devsw pipes f files
      return (pos 0, modify ofile fd (λ _. none), files')
  ]

  -- `sys_read`: the result, the bytes stored at the address, and the files.
  unfoldable pub sys_read : User → List (Option ℕ) → List File → M (ℤ × List ℕ × List File)
  sys_read u ofile files = elim (argfd 0 u ofile) [
    | none ↦ return (minus_one, [], files)
    | some (fd, f) ↦ elim (argint 2 u) [
      | none ↦ return (minus_one, [], files)
      | some n ↦ elim (argptr 1 n u) [
        | none ↦ return (minus_one, [], files)
        | some p ↦ fileread devsw pipes f n files
      ]
    ]
  ]

  -- `sys_write`, with `n` from 0 on.
  unfoldable pub sys_write : User → List (Option ℕ) → List File → M (ℤ × List File)
  sys_write u ofile files = elim (argfd 0 u ofile) [
    | none ↦ return (minus_one, files)
    | some (fd, f) ↦ elim (argint 2 u) [
      | none ↦ return (minus_one, files)
      | some n ↦ elim (argptr 1 n u) [
        | none ↦ return (minus_one, files)
        | some p ↦ filewrite devsw pipes f (bytes_at n u.mem p) files
      ]
    ]
  ]
