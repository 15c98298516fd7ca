-- ===== src/Syscall/Args.antt =====
-- The arguments of a system call (syscall.c), which the kernel reads from the user's stack. An `int` is
-- the 32-bit word that holds it.
use assignment.Prelude.{
  ℕ, zero, suc, ◌+◌, ◌-◌, ◌*◌, ◌%◌, ◌^◌, ◌||◌, List, [], ◌∷◌, Option, none, some, ◌==◌, ltb, leb,
  if◌then◌else◌,
}
use assignment.Fs.Block.{get32}

-- What `proc` gives of the caller: `sz`, `tf->esp`, and its memory, a byte at each address.
pub record User : Type 0 where
  pub sz : ℕ
  pub esp : ℕ
  pub mem : ℕ → ℕ

-- `fetchint`; `none` is the result -1.
unfoldable pub fetchint : User → ℕ → Option ℕ
fetchint u addr =
    if leb u.sz addr || ltb u.sz ((addr + 4) % 2 ^ 32) then none else some (get32 u.mem addr)

-- The loop of `fetchstr` with `n` bytes left before `ep`: how far the zero is.
unfoldable pub scan : ℕ → (ℕ → ℕ) → ℕ → Option ℕ
scan zero mem s = none
scan (suc n) mem s =
    let rest = scan n mem (s + 1) in
    if mem s == 0 then some 0 else elim rest [ none ↦ none | some k ↦ some (suc k) ]

-- `fetchstr`: the length; the string stays where it is.
unfoldable pub fetchstr : User → ℕ → Option ℕ
fetchstr u addr = if leb u.sz addr then none else scan (u.sz - addr) u.mem addr

unfoldable pub argint : ℕ → User → Option ℕ
argint n u = fetchint u ((u.esp + 4 + 4 * n) % 2 ^ 32)

infixl 5 ◌>>=◌
abbrev ◌>>=◌ : {A B : Type 0} → Option A → (A → Option B) → Option B
none >>= f = none
some a >>= f = f a

-- `argptr`, with `size` as the word that it is added as.
unfoldable pub argptr : ℕ → ℕ → User → Option ℕ
argptr n size u = do
  i ← argint n u
  if leb u.sz i || ltb u.sz ((i + size) % 2 ^ 32) then none else some i

-- `argstr`: the address and the length.
unfoldable pub argstr : ℕ → User → Option (ℕ × ℕ)
argstr n u = do addr ← argint n u; len ← fetchstr u addr; some (addr, len)

-- The `n` bytes from an address on.
unfoldable pub bytes_at : ℕ → (ℕ → ℕ) → ℕ → List ℕ
bytes_at zero mem a = []
bytes_at (suc n) mem a = mem a ∷ bytes_at n mem (a + 1)

-- The characters of the string argument `n`.
unfoldable pub argchars : ℕ → User → Option (List ℕ)
argchars n u = do s ← argstr n u; some (bytes_at s.1 u.mem s.0)
