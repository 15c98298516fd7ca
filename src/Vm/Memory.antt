-- ===== src/Vm/Memory.antt =====
-- The physical memory as vm.c uses it: pages of bytes, the list of free pages (kalloc.c), and the words
-- of page tables (mmu.h). A page is named by its physical address, so that `p2v` and `v2p` fall away.
use assignment.Prelude.{
  ℕ, ◌+◌, ◌*◌, ◌/◌, ◌%◌, ◌^◌, Bool, ◌||◌, not, List, [], ◌∷◌, Option, none, some, ◌==◌, ltb, leb,
  if◌then◌else◌,
}
use assignment.Fs.Block.{Blocks, update, get32, put32}

-- The pages, the free ones, and the end of the kernel.
pub record Vm : Type 0 where
  pub mem : Blocks
  pub freelist : List ℕ
  pub kernel_end : ℕ

-- An operation returns with the state; `none` is a panic or an access through a null pointer.
abbrev pub M : Type 0 → Type 0
M A = Vm → Option (A × Vm)

infixl 5 ◌>>=◌ ◌>>◌
abbrev pub ◌>>=◌ : {A B : Type 0} → M A → (A → M B) → M B
◌>>=◌ m f s = elim (m s) [ none ↦ none | some (a, t) ↦ f a t ]

abbrev pub ◌>>◌ : {A B : Type 0} → M A → M B → M B
m >> k = m >>= λ _. k

abbrev pub return : {A : Type 0} → A → M A
return a s = some (a, s)

abbrev pub panic : {A : Type 0} → M A
panic s = none

-- PGSIZE, and PHYSTOP
abbrev pub page_size : ℕ
page_size = 4096

abbrev pub phys_stop : ℕ
phys_stop = 0xE000000

abbrev pub kalloc : M (Option ℕ)
kalloc s = elim s.freelist [
  | [] ↦ some (none, s)
  | p ∷ ps ↦ some (some p, record s { freelist = ps })
]

-- `memset` of a page
abbrev pub fill : ℕ → ℕ → M (Unit {0})
fill p c s = some (tt, record s { mem = update (s.mem) p (λ _. c) })

-- `kfree`, which fills the page with 1; the link to the next free page is not stored in it.
abbrev pub kfree : ℕ → M (Unit {0})
kfree p s =
    if not (p % page_size == 0) || ltb p s.kernel_end || leb phys_stop p
    then none
    else some (tt, record s { mem = update (s.mem) p (λ _. 1); freelist = p ∷ s.freelist })

-- PDX and PTX
abbrev pub pdx : ℕ → ℕ
pdx va = va / 4194304 % 1024

abbrev pub ptx : ℕ → ℕ
ptx va = va / 4096 % 1024

abbrev pub pgroundup : ℕ → ℕ
pgroundup sz = (sz + 4095) % 2 ^ 32 / 4096 * 4096

abbrev pub pgrounddown : ℕ → ℕ
pgrounddown a = a / 4096 * 4096

-- PTE_ADDR, and the flags PTE_P and PTE_U
abbrev pub pte_addr : ℕ → ℕ
pte_addr pte = pte / 4096 * 4096

abbrev pub is_present : ℕ → Bool
is_present pte = pte % 2 == 1

abbrev pub is_user : ℕ → Bool
is_user pte = pte / 4 % 2 == 1

-- PTE_W|PTE_U
abbrev pub user_page : ℕ
user_page = 6

-- The word `i` of the table in the page `t`.
abbrev pub read_entry : ℕ → ℕ → M ℕ
read_entry t i s = some (get32 (s.mem t) (4 * i), s)

abbrev pub write_entry : ℕ → ℕ → ℕ → M (Unit {0})
write_entry t i w s = some (tt, record s { mem = update (s.mem) t (put32 (4 * i) w (s.mem t)) })
