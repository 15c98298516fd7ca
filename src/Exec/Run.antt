-- ===== src/Exec/Run.antt =====
-- `exec` (exec.c) and `sys_exec` (sysfile.c). The result 0 is `some` of what the process has become,
-- and -1 is `none`. `switchuvm` is left out.
use assignment.Prelude.{
  ℕ, zero, suc, ◌+◌, ◌*◌, ◌%◌, ◌^◌, List, [], ◌∷◌, ◌++◌, Option, none, some, ◌==◌, if◌then◌else◌,
}
use assignment.CString.{safestrcpy}
use assignment.Fs.Block.{Block}
use assignment.Fs.File.{Devsw}
use assignment.Fs.Inode.{ilock}
use assignment.Fs.Map.{iunlockput}
use assignment.Fs.Path.{namei}
use assignment.Vm.User.{Kmap, setupkvm, freevm}
use assignment.Syscall.Args.{User, fetchint, fetchstr, argint, argchars, bytes_at}
use assignment.Exec.Monad.{M, ◌>>=◌, ◌>>◌, return, panic, in_fs, in_vm}
use assignment.Exec.Load.{read_header, load_segments}
use assignment.Exec.Stack.{maxarg, build_stack}

-- The fields of `proc` that `exec` sets.
pub record Image : Type 0 where
  pub pgdir : ℕ
  pub sz : ℕ
  pub eip : ℕ
  pub esp : ℕ
  pub name : List ℕ

-- What stands behind the last slash, at `s` with `last` before it.
unfoldable pub name_of : List ℕ → List ℕ → List ℕ
name_of last [] = last
name_of last (c ∷ s) = if c == 47 then name_of s s else name_of last s

-- `bad`
unfoldable pub bad : Option ℕ → M (Unit {0}) → M (Option Image)
bad pgdir put = do elim pgdir [ none ↦ return tt | some d ↦ in_vm (freevm d) ]; put; return none

-- The last part of `exec`: the process takes the new image, and the old one is freed.
unfoldable pub commit : List ℕ → Image → Image → M (Option Image)
commit path old new = elim (safestrcpy old.name (name_of path path ++ (0 ∷ [])) 16) [
  | none ↦ panic
  | some name ↦ do in_vm (freevm old.pgdir); return (some (record new { name = name }))
]

-- The loop of `sys_exec` at the index `i`, with `n` entries of `argv` left; `none` is the result -1.
unfoldable pub fetch_args : ℕ → ℕ → ℕ → User → Option (List (List ℕ))
fetch_args zero i uargv u = none
fetch_args (suc n) i uargv u =
    let rest = fetch_args n (i + 1) uargv u in
    elim (fetchint u ((uargv + 4 * i) % 2 ^ 32)) [
      | none ↦ none
      | some uarg ↦ if uarg == 0 then some [] else elim (fetchstr u uarg) [
        | none ↦ none
        | some len ↦ elim rest [ none ↦ none | some argv ↦ some (bytes_at len u.mem uarg ∷ argv) ]
      ]
    ]

-- The arguments of `sys_exec`: the path and `argv`.
unfoldable pub arguments : User → Option (List ℕ × List (List ℕ))
arguments u = elim (argchars 0 u) [
  | none ↦ none
  | some path ↦ elim (argint 1 u) [
    | none ↦ none
    | some uargv ↦ elim (fetch_args maxarg 0 uargv u) [
      | none ↦ none
      | some argv ↦ some (path, argv)
    ]
  ]
]

-- What is not set when `exec` begins: its variables `elf` and `ph`, and the name in `namex`.
pub record Junk : Type 0 where
  pub elf : Block
  pub ph : Block
  pub name : List ℕ

module _ (devsw : Devsw) (kmap : List Kmap) (junk : Junk) where
  -- `exec` behind `ilock`, with the page directory `pgdir` made.
  unfoldable pub exec_into :
      ℕ → ℕ → (phoff phnum entry : ℕ) → List ℕ → List (List ℕ) → Image → M (Option Image)
  exec_into pgdir ip phoff phnum entry path argv old = do
    loaded ← load_segments devsw phnum junk.ph pgdir ip phoff 0
    elim loaded [
      | none ↦ bad (some pgdir) (in_fs (iunlockput ip))
      | some sz ↦ do
        in_fs (iunlockput ip)
        stack ← build_stack pgdir sz argv
        elim stack [
          | none ↦ bad (some pgdir) (return tt)
          | some (top, sp) ↦
              commit path old (record { pgdir = pgdir; sz = top; eip = entry; esp = sp; name = [] })
        ]
    ]

  -- `exec`, by a process with the current directory `cwd`.
  unfoldable pub exec : ℕ → List ℕ → List (List ℕ) → Image → M (Option Image)
  exec cwd path argv old = do
    found ← in_fs (namei devsw cwd path junk.name)
    elim found [
      | none ↦ return none
      | some (ip, _) ↦ do
        in_fs (ilock ip)
        header ← read_header devsw junk.elf ip
        elim header [
          | none ↦ bad none (in_fs (iunlockput ip))
          | some elf ↦ do
            p ← in_vm (setupkvm kmap)
            elim p [
              | none ↦ bad none (in_fs (iunlockput ip))
              | some pgdir ↦ exec_into pgdir ip elf.phoff elf.phnum elf.entry path argv old
            ]
        ]
    ]

  -- `sys_exec`
  unfoldable pub sys_exec : ℕ → User → Image → M (Option Image)
  sys_exec cwd u old = elim (arguments u) [
    | none ↦ return none
    | some (path, argv) ↦ exec cwd path argv old
  ]
