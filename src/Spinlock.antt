-- ===== src/Spinlock.antt =====
-- spinlock.c: the locks, and the count by which a processor turns its interrupts off. The call stack
-- that `acquire` records for debugging is left out.
use assignment.Prelude.{
  ℕ, Bool, true, false, ◌&&◌, Option, none, some, ℤ, pos, negsuc, minus_one, ◌+ℤ◌, ◌==ℤ◌, ◌==◌, ◌≡◌,
  ◌≢◌, refl, ==_refl, ℕ_discrete, arith, if◌then◌else◌,
}

-- `struct spinlock`: the processor that holds it is a number.
pub record Spinlock : Type 0 where
  pub locked : Bool
  pub cpu : Option ℕ

-- The fields of `struct cpu` that the locks use, and the interrupt flag of the processor.
pub record Cpu : Type 0 where
  pub id : ℕ
  pub ncli : ℤ
  pub intena : Bool
  pub interrupts : Bool

-- `initlock`, less the name
unfoldable pub initlock : Spinlock
initlock = record { locked = false; cpu = none }

abbrev pub is_cpu : Option ℕ → ℕ → Bool
is_cpu none id = false
is_cpu (some c) id = c == id

unfoldable pub holding : Spinlock → Cpu → Bool
holding lk c = lk.locked && is_cpu lk.cpu c.id

unfoldable pub pushcli : Cpu → Cpu
pushcli c = record c {
  interrupts = false;
  intena = if c.ncli ==ℤ pos 0 then c.interrupts else c.intena;
  ncli = c.ncli +ℤ pos 1;
}

abbrev pub is_negative : ℤ → Bool
is_negative (pos n) = false
is_negative (negsuc n) = true

-- `popcli`; `none` is a panic.
unfoldable pub popcli : Cpu → Option Cpu
popcli c =
    let left = c.ncli +ℤ minus_one in
    if c.interrupts
    then none
    else (if is_negative left
        then none
        else some (record c { ncli = left; interrupts = left ==ℤ pos 0 && c.intena }))

-- What one try of `acquire` comes to: it spins while another processor holds the lock.
pub data Acquire : Type 0 where
  spins : Cpu → Acquire
  acquired : Spinlock → Cpu → Acquire

-- `acquire`; `none` is the panic of a processor that holds the lock.
unfoldable pub acquire : Spinlock → Cpu → Option Acquire
acquire lk c =
    let c' = pushcli c in
    if holding lk c'
    then none
    else some
        (if lk.locked then spins c' else acquired (record { locked = true; cpu = some c.id }) c')

-- `release`; `none` is a panic.
unfoldable pub release : Spinlock → Cpu → Option (Spinlock × Cpu)
release lk c =
    if holding lk c
    then elim (popcli c) [
      | none ↦ none
      | some c' ↦ some (record { locked = false; cpu = none }, c')
    ]
    else none

-- A processor that takes a free lock and releases it leaves the lock free, its count as it was and
-- its interrupts as they were, if they are off while the count is above 0.
pub acquire-release :
    (c : Cpu) (n : ℕ)
    → c.ncli ≡ pos n
    → (n ≢ 0 → c.interrupts ≡ false)
    → (lk : Spinlock) × (c1 : Cpu) × (c2 : Cpu) × (acquire initlock c ≡ some (acquired lk c1))
      × (c1.interrupts ≡ false)
      × (release lk c1 ≡ some (initlock, c2))
      × (c2.ncli ≡ c.ncli)
      × (c2.interrupts ≡ c.interrupts)
unfolding acquire release initlock holding pushcli popcli
acquire-release c n count off =
    let left = c.ncli +ℤ pos 1 +ℤ minus_one in
    let intena = if c.ncli ==ℤ pos 0 then c.interrupts else c.intena in
    (
      record { locked = true; cpu = some c.id },
      pushcli c,
      record (pushcli c) { ncli = left; interrupts = left ==ℤ pos 0 && intena },
      refl,
      refl,
      rw (==_refl c.id) (ground (arith, count)),
      ground (arith, count),
      elim (ℕ_discrete n 0) [
        | yes e ↦ ground (arith, count, e)
        | no ne ↦ ground (arith, count, ne, off ne)
      ],
    )
