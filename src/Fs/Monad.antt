-- ===== src/Fs/Monad.antt =====
-- The state of fs.c and its operations as functions that return, panic, or sleep on an inode.
use assignment.Prelude.{ℕ, Bool, List, Option, none, some, get_elem?, modify}
use assignment.Fs.Block.{Block, Blocks, update}
use assignment.Fs.Alloc.{balloc, bfree}
use assignment.Fs.Dinode.{Dinode}

-- `struct inode` (file.h); `node` is the copy of the disk inode.
pub record Inode : Type 0 where
  pub dev : ℕ
  pub inum : ℕ
  pub ref : ℕ
  pub busy : Bool
  pub valid : Bool
  pub node : Dinode

-- The blocks, and `icache.inode`. A pointer to an inode is its index.
pub record Fs : Type 0 where
  pub blocks : Blocks
  pub icache : List Inode

-- An operation that sleeps ends there, with the inode that it waits for.
pub data Result {ℓ} (A : Type ℓ) : Type ℓ where
  ok : A → Fs → Result A
  sleeps : ℕ → Fs → Result A
  panics : Result A

abbrev pub M : Type 0 → Type 0
M A = Fs → Result A

infixl 5 ◌>>=◌ ◌>>◌
abbrev pub ◌>>=◌ : {A B : Type 0} → M A → (A → M B) → M B
◌>>=◌ m f s = elim (m s) [ ok a s' ↦ f a s' | sleeps ip s' ↦ sleeps ip s' | panics ↦ panics ]

abbrev pub ◌>>◌ : {A B : Type 0} → M A → M B → M B
m >> k = m >>= λ _. k

abbrev pub return : {A : Type 0} → A → M A
return a s = ok a s

abbrev pub panic : {A : Type 0} → M A
panic s = panics

abbrev pub sleep_on : {A : Type 0} → ℕ → M A
sleep_on ip s = sleeps ip s

abbrev pub lift : {A : Type 0} → Option A → M A
lift none = panic
lift (some a) = return a

-- `bread`, and `log_write` of a block that was changed
abbrev pub bread : ℕ → M Block
bread b s = ok (s.blocks b) s

abbrev pub log_write : ℕ → (Block → Block) → M (Unit {0})
log_write b f s = ok tt (record s { blocks = update (s.blocks) b (f (s.blocks b)) })

abbrev pub alloc_block : M ℕ
alloc_block s = elim (balloc s.blocks) [
  | none ↦ panics
  | some (b, d) ↦ ok b (record s { blocks = d })
]

abbrev pub free_block : ℕ → M (Unit {0})
free_block b s = elim (bfree b s.blocks) [
  | none ↦ panics
  | some d ↦ ok tt (record s { blocks = d })
]

-- The inode at an index of the cache; an index outside it is a stray pointer.
abbrev pub inode : ℕ → M Inode
inode ip s = lift (get_elem? s.icache ip) s

abbrev pub set_inode : ℕ → (Inode → Inode) → M (Unit {0})
set_inode ip f s = ok tt (record s { icache = modify s.icache ip f })
