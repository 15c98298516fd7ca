-- ===== src/Vm/Grow.antt =====
-- `growproc` (proc.c) and `sys_sbrk` (sysproc.c): the size of a process. `switchuvm` is left out.
use assignment.Prelude.{ℕ, ◌+◌, ◌%◌, ◌^◌, Option, none, some, ◌==◌, ltb, if◌then◌else◌}
use assignment.Vm.Memory.{M, ◌>>=◌, return}
use assignment.Vm.User.{deallocuvm, allocuvm}
use assignment.Syscall.Args.{User, argint}

-- `growproc` with `n` as its word: the size, or `none` for -1.
unfoldable pub growproc : ℕ → ℕ → ℕ → M (Option ℕ)
growproc pgdir sz n = if n == 0 then return (some sz) else (do
  sz' ←
      (if ltb n (2 ^ 31)
        then allocuvm pgdir sz ((sz + n) % 2 ^ 32)
        else deallocuvm pgdir sz ((sz + n) % 2 ^ 32))
  return (if sz' == 0 then none else some sz'))

-- `sys_sbrk`: the address, which is the size before, or `none` for -1, and the size.
unfoldable pub sys_sbrk : ℕ → User → M (Option ℕ × ℕ)
sys_sbrk pgdir u = elim (argint 0 u) [
  | none ↦ return (none, u.sz)
  | some n ↦ do
    grown ← growproc pgdir u.sz n
    return (elim grown [ none ↦ (none, u.sz) | some sz ↦ (some u.sz, sz) ])
]
