-- ===== src/Env.antt =====
-- What the process and file code calls in vm.c, pipe.c, fs.c and log.c, as an interface. `none` is
-- a panic.
use assignment.Prelude.{ℕ, List, Option}
use assignment.Kernel.{Kernel, File}

pub record Env : Type 0 where
  -- `copyuvm(pgdir, sz)` with the pages that are free: the new page directory, or 0
  pub copyuvm : ℕ → ℕ → List ℕ → ℕ × List ℕ
  -- `freevm(pgdir)`
  pub freevm : ℕ → List ℕ → Option (List ℕ)
  -- the end of `fileclose`: `pipeclose`, or `iput` inside a transaction
  pub close_last : File → Kernel → Option Kernel
  -- `iput(ip)`
  pub iput : ℕ → Kernel → Option Kernel
