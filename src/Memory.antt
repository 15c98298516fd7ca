-- ===== src/Memory.antt =====
-- string.c: `memmove` and `memcmp` on memory, a byte at each address.
use assignment.Prelude.{
  ℕ, zero, suc, ◌+◌, ◌-◌, ◌≤◌, ◌≡◌, ◌⊎◌, inl, inr, ◌∙◌, ap, ◌&&◌, ℤ, pos, negsuc, arith, ◌==◌, leb,
  ltb, Bool-cases, if◌then◌else◌,
}

abbrev pub Memory : Type 0
Memory = ℕ → ℕ

abbrev pub store : Memory → ℕ → ℕ → Memory
store m a c = λ t. if t == a then c else m t

-- `while(n-- > 0) *d++ = *s++;`
unfoldable pub copy_up : ℕ → ℕ → ℕ → Memory → Memory
copy_up zero d s m = m
copy_up (suc n) d s m = copy_up n (d + 1) (s + 1) (store m d (m s))

-- `while(n-- > 0) *--d = *--s;`, with `d` and `s` as they are at the end of the loop.
unfoldable pub copy_down : ℕ → ℕ → ℕ → Memory → Memory
copy_down zero d s m = m
copy_down (suc n) d s m = copy_down n d s (store m (d + n) (m (s + n)))

-- `memmove(dst, src, n)`, of areas that lie inside the memory
unfoldable pub memmove : ℕ → ℕ → ℕ → Memory → Memory
memmove dst src n m =
    if ltb src dst && ltb dst (src + n) then copy_down n dst src m else copy_up n dst src m

-- The difference of two bytes.
abbrev pub difference : ℕ → ℕ → ℤ
difference a b = if leb b a then pos (a - b) else negsuc (b - a - 1)

-- `memcmp(v1, v2, n)`
unfoldable pub memcmp : ℕ → ℕ → ℕ → Memory → ℤ
memcmp v1 v2 zero m = pos 0
memcmp v1 v2 (suc n) m =
    let rest = memcmp (v1 + 1) (v2 + 1) n m in
    if m v1 == m v2 then rest else difference (m v1) (m v2)

-- The memory with the `n` bytes from `s` on at `d`, all read before any is written.
abbrev pub moved : ℕ → ℕ → ℕ → Memory → Memory
moved n d s m = λ t. if leb d t && ltb t (d + n) then m (s + (t - d)) else m t

copy_up-moved :
    (n d s : ℕ) (m : Memory) (t : ℕ) → (d ≤ s) ⊎ (s + n ≤ d) → copy_up n d s m t ≡ moved n d s m t
unfolding copy_up
copy_up-moved zero d s m t apart = ground arith
copy_up-moved (suc n) d s m t apart =
    let rest = copy_up-moved n (d + 1) (s + 1) (store m d (m s)) t (ground arith) in
    rest ∙ grind arith

copy_down-moved : (n d s : ℕ) (m : Memory) (t : ℕ) → s ≤ d → copy_down n d s m t ≡ moved n d s m t
unfolding copy_down
copy_down-moved zero d s m t le = ground arith
copy_down-moved (suc n) d s m t le =
    let rest = copy_down-moved n d s (store m (d + n) (m (s + n))) t le in rest ∙ grind arith

-- `memmove` leaves at `dst` the `n` bytes that stood at `src` before it, also where the two areas
-- overlap, and changes no other byte.
pub memmove-moved :
    (dst src n : ℕ) (m : Memory) (t : ℕ) → memmove dst src n m t ≡ moved n dst src m t
unfolding memmove
memmove-moved dst src n m t = elim (Bool-cases (ltb src dst && ltb dst (src + n))) [
  | inl e ↦
      ap (λ c. (if c then copy_down n dst src m else copy_up n dst src m) t) e
      ∙ copy_down-moved n dst src m t (ground (arith, e))
  | inr e ↦
      ap (λ c. (if c then copy_down n dst src m else copy_up n dst src m) t) e
      ∙ copy_up-moved n dst src m t (ground (arith, e))
]
