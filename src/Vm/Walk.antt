-- ===== src/Vm/Walk.antt =====
-- `walkpgdir`, `mappages` and `uva2ka` (vm.c).
use assignment.Prelude.{
  ℕ, zero, suc, ◌+◌, ◌-◌, ◌/◌, ◌%◌, ◌^◌, Bool, true, false, ◌&&◌, Option, none, some, if◌then◌else◌,
}
use assignment.Vm.Memory.{
  M, ◌>>=◌, ◌>>◌, return, panic, page_size, kalloc, fill, pdx, ptx, pgrounddown, pte_addr,
  is_present, is_user, read_entry, write_entry,
}

-- A new page table for the entry `i` of the directory. Its address is that of a page, to which
-- `| PTE_P | PTE_W | PTE_U` adds 7.
unfoldable pub add_table : ℕ → ℕ → M (Option ℕ)
add_table pgdir i = do
  p ← kalloc
  elim p [ none ↦ return none | some t ↦ do fill t 0; write_entry pgdir i (t + 7); return (some t) ]

-- `walkpgdir`: the table and the index of the entry, or a null pointer.
unfoldable pub walkpgdir : ℕ → ℕ → Bool → M (Option (ℕ × ℕ))
walkpgdir pgdir va alloc = do
  pde ← read_entry pgdir (pdx va)
  if is_present pde
      then return (some (pte_addr pde, ptx va))
      else (if alloc
          then (do
            t ← add_table pgdir (pdx va)
            return (elim t [ none ↦ none | some t ↦ some (t, ptx va) ]))
          else return none)

-- One round of `mappages`; false is the result -1. `pa` is the address of a page and `perm` has flags
-- from PTE_W on, so that `|` adds.
unfoldable pub map_page : ℕ → ℕ → ℕ → ℕ → M Bool
map_page pgdir a pa perm = do
  pte ← walkpgdir pgdir a true
  elim pte [
    | none ↦ return false
    | some (t, i) ↦ do
      w ← read_entry t i
      if is_present w then panic else return tt
      write_entry t i (pa + perm + 1)
      return true
  ]

-- The loop of `mappages` at `a`, with `n` pages behind it up to `last`.
unfoldable pub map_from : ℕ → ℕ → ℕ → ℕ → ℕ → M Bool
map_from zero pgdir a pa perm = map_page pgdir a pa perm
map_from (suc n) pgdir a pa perm = do
  done ← map_page pgdir a pa perm
  if done
      then map_from n pgdir ((a + page_size) % 2 ^ 32) ((pa + page_size) % 2 ^ 32) perm
      else return false

unfoldable pub mappages : ℕ → ℕ → ℕ → ℕ → ℕ → M Bool
mappages pgdir va size pa perm =
    let a = pgrounddown va in
    let last = pgrounddown ((va + size + 4294967295) % 2 ^ 32) in
    map_from ((last + 2 ^ 32 - a) % 2 ^ 32 / page_size) pgdir a pa perm

-- `uva2ka`, which reads through the pointer that `walkpgdir` gives.
unfoldable pub uva2ka : ℕ → ℕ → M (Option ℕ)
uva2ka pgdir uva = do
  pte ← walkpgdir pgdir uva false
  elim pte [
    | none ↦ panic
    | some (t, i) ↦ do
      w ← read_entry t i
      if is_present w && is_user w then return (some (pte_addr w)) else return none
  ]
