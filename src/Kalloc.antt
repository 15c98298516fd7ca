-- ===== src/Kalloc.antt =====
-- kalloc.c: the pages of physical memory, by their kernel addresses, on a free list. The lock of
-- the list and the junk that fills a freed page are left out.
use assignment.Prelude.{
  ℕ, zero, suc, ◌+◌, ◌-◌, ◌*◌, ◌/◌, ◌%◌, ◌^◌, Bool, ◌||◌, not, List, [], ◌∷◌, Option, none, some,
  ◌==◌, leb, ltb, if◌then◌else◌,
}

abbrev pub page_size : ℕ
page_size = 4096

abbrev pub kern_base : ℕ
kern_base = 0x80000000

abbrev pub phys_top : ℕ
phys_top = 0xE000000

-- PGROUNDUP, on 32-bit words
unfoldable pub page_round_up : ℕ → ℕ
page_round_up a = (a + page_size - 1) % 2 ^ 32 / page_size * page_size

-- `v2p`, on 32-bit words
abbrev pub v2p : ℕ → ℕ
v2p v = (v + 2 ^ 32 - kern_base) % 2 ^ 32

-- The test at the head of `kfree`, for the address `end` of the linker script.
unfoldable pub is_page : ℕ → ℕ → Bool
is_page kernel_end v = not (not (v % page_size == 0) || ltb v kernel_end || leb phys_top (v2p v))

-- `kfree`; `none` is the panic.
unfoldable pub kfree : ℕ → ℕ → List ℕ → Option (List ℕ)
kfree kernel_end v freelist = if is_page kernel_end v then some (v ∷ freelist) else none

-- `kalloc`, which returns 0 when no page is left.
unfoldable pub kalloc : List ℕ → ℕ × List ℕ
kalloc [] = (0, [])
kalloc (r ∷ freelist) = (r, freelist)

-- The loop of `freerange`; `none` is the panic, or fuel that is spent.
unfoldable pub free_from : ℕ → ℕ → ℕ → ℕ → List ℕ → Option (List ℕ)
free_from zero kernel_end p vend freelist = none
free_from (suc fuel) kernel_end p vend freelist =
    if leb (p + page_size) vend
    then elim (kfree kernel_end p freelist) [
      | none ↦ none
      | some freelist' ↦ free_from fuel kernel_end (p + page_size) vend freelist'
    ]
    else some freelist

-- `freerange`, which `kinit1` and `kinit2` call: the fuel is one more than the pages below `vend`.
unfoldable pub freerange : ℕ → ℕ → ℕ → List ℕ → Option (List ℕ)
freerange kernel_end vstart vend freelist =
    free_from (vend / page_size + 1) kernel_end (page_round_up vstart) vend freelist
