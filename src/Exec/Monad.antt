-- ===== src/Exec/Monad.antt =====
-- The state that `exec` works on, the file system and the memory, and operations that return, panic, or
-- sleep on a busy inode and end there.
use assignment.Prelude.{ℕ, Option, none, some}
use assignment.Fs.Monad.{Fs, ok, sleeps, panics}
use assignment.Fs.Monad
use assignment.Vm.Memory.{Vm}
use assignment.Vm.Memory

pub record Sys : Type 0 where
  pub fs : Fs
  pub vm : Vm

pub data Result {ℓ} (A : Type ℓ) : Type ℓ where
  gives : A → Sys → Result A
  waits : ℕ → Sys → Result A
  fails : Result A

abbrev pub M : Type 0 → Type 0
M A = Sys → Result A

infixl 5 ◌>>=◌ ◌>>◌
abbrev pub ◌>>=◌ : {A B : Type 0} → M A → (A → M B) → M B
◌>>=◌ m f s = elim (m s) [ gives a t ↦ f a t | waits ip t ↦ waits ip t | fails ↦ fails ]

abbrev pub ◌>>◌ : {A B : Type 0} → M A → M B → M B
m >> k = m >>= λ _. k

abbrev pub return : {A : Type 0} → A → M A
return a s = gives a s

abbrev pub panic : {A : Type 0} → M A
panic s = fails

-- The operations of fs.c, and those of vm.c.
unfoldable pub in_fs : {A : Type 0} → Monad.M A → M A
in_fs m s = elim (m s.fs) [
  | ok a fs ↦ gives a (record s { fs = fs })
  | sleeps ip fs ↦ waits ip (record s { fs = fs })
  | panics ↦ fails
]

unfoldable pub in_vm : {A : Type 0} → Memory.M A → M A
in_vm m s = elim (m s.vm) [ none ↦ fails | some (a, vm) ↦ gives a (record s { vm = vm }) ]

-- A part that may jump to `bad`, and what comes behind it.
infixl 5 ◌or_bad◌
abbrev pub ◌or_bad◌ : {A B : Type 0} → M (Option A) → (A → M (Option B)) → M (Option B)
m or_bad f = m >>= λ r. elim r [ none ↦ return none | some a ↦ f a ]
