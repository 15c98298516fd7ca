-- ===== src/Exec/Load.antt =====
-- exec.c, the first part of `exec`: the ELF header and the segments of the program (elf.h), with
-- `loaduvm` of vm.c.
use assignment.Prelude.{
  ℕ, zero, suc, ◌+◌, ◌-◌, ◌/◌, ◌%◌, ◌^◌, Bool, true, false, Option, none, some, ℤ, pos, negsuc,
  ◌==◌, ltb, not, if◌then◌else◌,
}
use assignment.Fs.Block.{Block, get16, get32}
use assignment.Fs.File.{Devsw, readi, overwrite}
use assignment.Vm.Memory.{page_size, pte_addr, read_entry}
use assignment.Vm.Walk.{walkpgdir}
use assignment.Vm.User.{allocuvm, copy_in}
use assignment.Exec.Monad.{M, ◌>>=◌, ◌>>◌, return, panic, in_fs, in_vm}

-- ELF_MAGIC, ELF_PROG_LOAD, and the sizes of the two headers
abbrev pub elf_magic : ℕ
elf_magic = 0x464C457F

abbrev elf_prog_load : ℕ
elf_prog_load = 1

abbrev elfhdr_size : ℕ
elfhdr_size = 52

abbrev proghdr_size : ℕ
proghdr_size = 32

-- The fields of `struct elfhdr` and of `struct proghdr` that `exec` reads.
pub record Elfhdr : Type 0 where
  pub magic : ℕ
  pub entry : ℕ
  pub phoff : ℕ
  pub phnum : ℕ

pub record Proghdr : Type 0 where
  pub type : ℕ
  pub off : ℕ
  pub vaddr : ℕ
  pub filesz : ℕ
  pub memsz : ℕ

unfoldable pub elfhdr_of : Block → Elfhdr
elfhdr_of b = record {
  magic = get32 b 0;
  entry = get32 b 24;
  phoff = get32 b 28;
  phnum = get16 b 44;
}

unfoldable pub proghdr_of : Block → Proghdr
proghdr_of b = record {
  type = get32 b 0;
  off = get32 b 4;
  vaddr = get32 b 8;
  filesz = get32 b 16;
  memsz = get32 b 20;
}

-- An `int` where the other side of a comparison is unsigned.
abbrev pub to_word : ℤ → ℕ
to_word (pos n) = n
to_word (negsuc n) = 2 ^ 32 - 1 - n

module _ (devsw : Devsw) where
  -- The header, in a variable that held `junk`; `none` is a jump to `bad`.
  unfoldable pub read_header : Block → ℕ → M (Option Elfhdr)
  read_header junk ip = do
    r ← in_fs (readi devsw ip 0 elfhdr_size)
    let elf : Elfhdr = elfhdr_of (overwrite 0 r.1 junk)
    return (
        if ltb (to_word r.0) elfhdr_size
        then none
        else (if elf.magic == elf_magic then some elf else none))

  -- The body of the loop of `loaduvm`; false is the result -1.
  unfoldable pub load_page : ℕ → ℕ → ℕ → ℕ → ℕ → M Bool
  load_page pgdir va ip offset n = do
    pte ← in_vm (walkpgdir pgdir va false)
    elim pte [
      | none ↦ panic
      | some (t, i) ↦ do
        w ← in_vm (read_entry t i)
        r ← in_fs (readi devsw ip offset n)
        in_vm (copy_in (pte_addr w) 0 r.1)
        return (to_word r.0 == n)
    ]

  -- The loop, at `i`, with `fuel` rounds left.
  unfoldable pub load_from : ℕ → ℕ → ℕ → ℕ → ℕ → ℕ → ℕ → M Bool
  load_from zero pgdir addr ip offset sz i = return true
  load_from (suc fuel) pgdir addr ip offset sz i =
      if ltb i sz
      then (do
        let n : ℕ = if ltb (sz - i) page_size then sz - i else page_size
        done ← load_page pgdir ((addr + i) % 2 ^ 32) ip ((offset + i) % 2 ^ 32) n
        if done then load_from fuel pgdir addr ip offset sz (i + page_size) else return false)
      else return true

  -- `loaduvm` of at most 2^32 - 4096 bytes, so that `i` does not wrap round.
  unfoldable pub loaduvm : ℕ → ℕ → ℕ → ℕ → ℕ → M Bool
  loaduvm pgdir addr ip offset sz =
      if not (addr % page_size == 0)
      then panic
      else load_from (sz / page_size + 1) pgdir addr ip offset sz 0

  -- A segment that is to be loaded: the size, or `none` for a jump to `bad`.
  unfoldable pub load_segment : ℕ → ℕ → Proghdr → ℕ → M (Option ℕ)
  load_segment pgdir ip ph sz = if ltb ph.memsz ph.filesz then return none else (do
    sz' ← in_vm (allocuvm pgdir sz ((ph.vaddr + ph.memsz) % 2 ^ 32))
    if sz' == 0 then return none else (do
      done ← loaduvm pgdir ph.vaddr ip ph.off ph.filesz
      return (if done then some sz' else none)))

  -- The loop over the program headers, at the offset `off` with `n` left.
  unfoldable pub load_segments : ℕ → Block → ℕ → ℕ → ℕ → ℕ → M (Option ℕ)
  load_segments zero junk pgdir ip off sz = return (some sz)
  load_segments (suc n) junk pgdir ip off sz = do
    r ← in_fs (readi devsw ip off proghdr_size)
    let ph : Proghdr = proghdr_of (overwrite 0 r.1 junk)
    if to_word r.0 == proghdr_size
        then (do
          sz' ← (if ph.type == elf_prog_load then load_segment pgdir ip ph sz else return (some sz))
          elim sz' [
            | none ↦ return none
            | some sz1 ↦ load_segments n junk pgdir ip ((off + proghdr_size) % 2 ^ 32) sz1
          ])
        else return none
