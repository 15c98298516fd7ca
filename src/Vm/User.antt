-- ===== src/Vm/User.antt =====
-- The operations of vm.c on the user part of a page directory.
use assignment.Prelude.{
  ℕ, zero, suc, ◌+◌, ◌-◌, ◌*◌, ◌/◌, ◌%◌, ◌^◌, Bool, true, false, List, [], ◌∷◌, Option, none, some,
  ◌==◌, ltb, leb, if◌then◌else◌, length, take, drop,
}
use assignment.Fs.Block.{update}
use assignment.Fs.File.{overwrite}
use assignment.Vm.Memory.{
  M, ◌>>=◌, ◌>>◌, return, panic, page_size, kalloc, kfree, fill, pgroundup, pgrounddown, pte_addr,
  is_present, user_page, read_entry, write_entry,
}
use assignment.Vm.Walk.{walkpgdir, mappages, uva2ka}

-- KERNBASE
abbrev pub kernbase : ℕ
kernbase = 0x80000000

-- An entry of `kmap`, whose addresses depend on where the kernel is linked.
pub record Kmap : Type 0 where
  pub virt : ℕ
  pub phys_start : ℕ
  pub phys_end : ℕ
  pub perm : ℕ

-- The bytes that are stored in a page from an offset on.
abbrev pub copy_in : ℕ → ℕ → List ℕ → M (Unit {0})
copy_in p o bytes s = some (tt, record s { mem = update (s.mem) p (overwrite o bytes (s.mem p)) })

-- The loop of `setupkvm`.
unfoldable pub map_kernel : List Kmap → ℕ → M Bool
map_kernel [] pgdir = return true
map_kernel (k ∷ ks) pgdir = do
  done ← mappages pgdir k.virt ((k.phys_end + 2 ^ 32 - k.phys_start) % 2 ^ 32) k.phys_start k.perm
  if done then map_kernel ks pgdir else return false

-- `setupkvm`; PHYSTOP is not too high.
unfoldable pub setupkvm : List Kmap → M (Option ℕ)
setupkvm kmap = do
  p ← kalloc
  elim p [
    | none ↦ return none
    | some pgdir ↦ do
      fill pgdir 0
      done ← map_kernel kmap pgdir
      return (if done then some pgdir else none)
  ]

-- A page of zeros at `a`. The result of `mappages` is not looked at.
unfoldable pub map_zeros : ℕ → ℕ → ℕ → M (Unit {0})
map_zeros pgdir a mem = do fill mem 0; mappages pgdir a page_size mem user_page; return tt

unfoldable pub inituvm : ℕ → List ℕ → M (Unit {0})
inituvm pgdir init = do
  if leb page_size (length init) then panic else return tt
  p ← kalloc
  elim p [ none ↦ panic | some mem ↦ map_zeros pgdir 0 mem >> copy_in mem 0 init ]

-- The page behind an entry is freed and the entry cleared.
unfoldable pub drop_page : ℕ → ℕ → M (Unit {0})
drop_page t i = do
  w ← read_entry t i
  if is_present w
      then (do if pte_addr w == 0 then panic else return tt; kfree (pte_addr w); write_entry t i 0)
      else return tt

-- The loop of `deallocuvm` at `a`. Where a table is missing it goes on 1024 pages behind, wherever in
-- the table `a` is.
unfoldable pub dealloc_from : ℕ → ℕ → ℕ → ℕ → M (Unit {0})
dealloc_from zero pgdir a oldsz = return tt
dealloc_from (suc fuel) pgdir a oldsz =
    if ltb a oldsz
    then (do
      pte ← walkpgdir pgdir a false
      elim pte [
        | none ↦ dealloc_from fuel pgdir ((a + 1024 * page_size) % 2 ^ 32) oldsz
        | some (t, i) ↦ do drop_page t i; dealloc_from fuel pgdir ((a + page_size) % 2 ^ 32) oldsz
      ])
    else return tt

-- `deallocuvm`, of sizes up to KERNBASE: each round moves on by a page at least.
unfoldable pub deallocuvm : ℕ → ℕ → ℕ → M ℕ
deallocuvm pgdir oldsz newsz =
    if leb oldsz newsz
    then return oldsz
    else (do dealloc_from (oldsz / page_size + 1) pgdir (pgroundup newsz) oldsz; return newsz)

-- The loop of `allocuvm` at `a`, with `n` pages left; false if the memory ends.
unfoldable pub alloc_from : ℕ → ℕ → ℕ → M Bool
alloc_from zero pgdir a = return true
alloc_from (suc n) pgdir a = do
  p ← kalloc
  elim p [
    | none ↦ return false
    | some mem ↦ do map_zeros pgdir a mem; alloc_from n pgdir (a + page_size)
  ]

unfoldable pub allocuvm : ℕ → ℕ → ℕ → M ℕ
allocuvm pgdir oldsz newsz =
    if leb kernbase newsz
    then return 0
    else (if ltb newsz oldsz then return oldsz else (do
      done ← alloc_from ((newsz - pgroundup oldsz + 4095) / page_size) pgdir (pgroundup oldsz)
      if done then return newsz else (do deallocuvm pgdir newsz oldsz; return 0)))

-- The loop of `freevm` over the page tables from the entry `i` on.
unfoldable pub free_tables : ℕ → ℕ → ℕ → M (Unit {0})
free_tables zero pgdir i = return tt
free_tables (suc n) pgdir i = do
  w ← read_entry pgdir i
  if is_present w then kfree (pte_addr w) else return tt
  free_tables n pgdir (i + 1)

-- `freevm`, of a directory that is not a null pointer.
unfoldable pub freevm : ℕ → M (Unit {0})
freevm pgdir = do deallocuvm pgdir kernbase 0; free_tables 1024 pgdir 0; kfree pgdir

unfoldable pub clearpteu : ℕ → ℕ → M (Unit {0})
clearpteu pgdir uva = do
  pte ← walkpgdir pgdir uva false
  elim pte [
    | none ↦ panic
    | some (t, i) ↦ do w ← read_entry t i; write_entry t i (if w / 4 % 2 == 1 then w - 4 else w)
  ]

-- `memmove` of a page.
abbrev pub copy_page : ℕ → ℕ → M (Unit {0})
copy_page dst src s = some (tt, record s { mem = update (s.mem) dst (s.mem src) })

-- The loop of `copyuvm` at `a`, with `n` pages left; false is the jump to `bad`.
unfoldable pub copy_from : ℕ → ℕ → ℕ → ℕ → M Bool
copy_from zero d pgdir a = return true
copy_from (suc n) d pgdir a = do
  pte ← walkpgdir pgdir a false
  elim pte [
    | none ↦ panic
    | some (t, i) ↦ do
      w ← read_entry t i
      if is_present w then return tt else panic
      p ← kalloc
      elim p [
        | none ↦ return false
        | some mem ↦ do
          copy_page mem (pte_addr w)
          done ← mappages d a page_size mem user_page
          if done then copy_from n d pgdir (a + page_size) else return false
      ]
  ]

unfoldable pub copyuvm : List Kmap → ℕ → ℕ → M (Option ℕ)
copyuvm kmap pgdir sz = do
  p ← setupkvm kmap
  elim p [
    | none ↦ return none
    | some d ↦ do
      done ← copy_from ((sz + 4095) / page_size) d pgdir 0
      if done then return (some d) else (freevm d >> return none)
  ]

-- The loop of `copyout` with the bytes that are left, at most one round for each; false is the result
-- -1.
unfoldable pub copyout_from : ℕ → ℕ → ℕ → List ℕ → M Bool
copyout_from zero pgdir va bytes = return true
copyout_from (suc fuel) pgdir va [] = return true
copyout_from (suc fuel) pgdir va (c ∷ cs) = do
  let va0 : ℕ = pgrounddown va
  let n : ℕ = page_size - (va - va0)
  pa0 ← uva2ka pgdir va0
  elim pa0 [
    | none ↦ return false
    | some p ↦ do
      copy_in p (va - va0) (take n (c ∷ cs))
      copyout_from fuel pgdir ((va0 + page_size) % 2 ^ 32) (drop n (c ∷ cs))
  ]

unfoldable pub copyout : ℕ → ℕ → List ℕ → M Bool
copyout pgdir va bytes = copyout_from (length bytes) pgdir va bytes
