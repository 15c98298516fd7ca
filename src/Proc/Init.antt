-- ===== src/Proc/Init.antt =====
-- `userinit` (proc.c): the first process.
use assignment.Prelude.{
  ℕ, List, [], ◌∷◌, Option, none, some, get_elem?, modify, if◌then◌else◌, ◌==◌,
}
use assignment.CString.{safestrcpy}
use assignment.Kernel.{Kernel, Proc, runnable}
use assignment.Proc.Table.{allocproc}

-- PGSIZE
abbrev page_size : ℕ
page_size = 4096

-- "initcode" and its zero
abbrev init_name : List ℕ
init_name = b'i' ∷ b'n' ∷ b'i' ∷ b't' ∷ b'c' ∷ b'o' ∷ b'd' ∷ b'e' ∷ 0 ∷ []

-- The registers `cs`, `ds`, `es`, `ss` and `eflags`; the segments have the privilege DPL_USER.
abbrev init_registers : List ℕ
init_registers = 35 ∷ 43 ∷ 43 ∷ 43 ∷ 512 ∷ []

-- The entry of the first process, with its page directory, its name and the inode of the root.
abbrev pub first_process : ℕ → List ℕ → Option ℕ → Proc → Proc
first_process pgdir name cwd p = record p {
  pgdir = pgdir;
  sz = page_size;
  tf = record { eax = 0; eip = 0; esp = page_size; others = init_registers };
  name = name;
  cwd = cwd;
  state = runnable;
}

-- `userinit`, with the page directory that `setupkvm` and `inituvm` make of the free pages, or 0, and
-- the inode that `namei("/")` finds. `none` is a panic or an access through a null pointer.
unfoldable pub userinit : (List ℕ → ℕ × List ℕ) → Option ℕ → Kernel → Option Kernel
userinit make_pgdir root k =
    let (entry, k1) = allocproc k in
    elim entry [
      | none ↦ none
      | some i ↦ elim (get_elem? k1.procs i) [
        | none ↦ none
        | some p ↦
            let made = make_pgdir k1.freelist in
            if made.0 == 0 then none else elim (safestrcpy p.name init_name 16) [
              | none ↦ none
              | some name ↦ some (record k1 {
                initproc = some i;
                freelist = made.1;
                procs = modify k1.procs i (first_process (made.0) name root);
              })
            ]
      ]
    ]
