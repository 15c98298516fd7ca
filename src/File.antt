-- ===== src/File.antt =====
-- file.c: the reference counts of the open file table. `none` is a panic or a null access. What
-- `fileclose` does with the last reference is the argument `close_last` of `Env`.
use assignment.Prelude.{
  ℕ, ◌+◌, ◌-◌, List, Option, none, some, ◌==◌, ltb, if◌then◌else◌, get_elem?, modify, find_index,
}
use assignment.Kernel.{Kernel, File, fd_none}
use assignment.Env.{Env}

-- `filealloc`: the first file that nobody refers to.
unfoldable pub filealloc : List File → Option ℕ × List File
filealloc files = elim (find_index (λ f. f.ref == 0) files) [
  | none ↦ (none, files)
  | some i ↦ (some i, modify files i (λ f. record f { ref = 1 }))
]

-- `filedup`
unfoldable pub filedup : ℕ → List File → Option (List File)
filedup i files = elim (get_elem? files i) [
  | none ↦ none
  | some f ↦ if ltb f.ref 1 then none else some (modify files i (λ f. record f { ref = f.ref + 1 }))
]

-- `fileclose`: the entry is cleared before the last reference is put away.
unfoldable pub fileclose : Env → ℕ → Kernel → Option Kernel
fileclose env i k = elim (get_elem? k.files i) [
  | none ↦ none
  | some f ↦
      if ltb f.ref 1
      then none
      else (if ltb 0 (f.ref - 1)
          then some (record k { files = modify k.files i (λ f. record f { ref = f.ref - 1 }) })
          else env.close_last f
              (record k { files = modify k.files i (λ f. record f { ref = 0; type = fd_none }) }))
]
