-- ===== src/Trap/Handler.antt =====
-- `trap` (trap.c). The drivers of the devices, the system call, and what the other processes do while
-- this one is not running are parameters.
use assignment.Prelude.{
  ℕ, ◌+◌, ◌%◌, ◌^◌, Bool, true, false, ◌&&◌, ◌||◌, Option, none, some, ◌==◌, if◌then◌else◌,
  get_elem?, modify,
}
use assignment.Kernel.{Kernel, Proc, running, ◌==state◌, Chan, address}
use assignment.Proc.Table.{wakeup1, yield}

-- What `trap` calls outside proc.c.
pub record Devices : Type 0 where
  pub syscall : ℕ → Kernel → Kernel
  pub ideintr : Kernel → Kernel
  pub kbdintr : Kernel → Kernel
  pub uartintr : Kernel → Kernel
  -- from the switch in `yield` until the process is switched to again
  pub others_run : Kernel → Kernel

-- The state that `trap` sees: `ticks`, `cpu->id` and `proc`.
pub record Machine : Type 0 where
  pub kernel : Kernel
  pub ticks : ℕ
  pub cpu_id : ℕ
  pub cur : Option ℕ

-- `exit` does not return.
pub data Outcome : Type 0 where
  returns : Machine → Outcome
  exits : Machine → Outcome
  panics : Outcome

-- T_SYSCALL, T_IRQ0 and the interrupts (traps.h)
abbrev pub t_syscall : ℕ
t_syscall = 64

abbrev pub t_irq0 : ℕ
t_irq0 = 32

abbrev pub irq_timer : ℕ
irq_timer = 0

abbrev irq_kbd : ℕ
irq_kbd = 1

abbrev irq_com1 : ℕ
irq_com1 = 4

abbrev irq_ide : ℕ
irq_ide = 14

abbrev irq_spurious : ℕ
irq_spurious = 31

-- `&ticks`
abbrev pub ticks_chan : Chan
ticks_chan = address 0

-- A field of `proc`; it is false for a null pointer, as in the tests of `trap`.
unfoldable pub of_proc : (Proc → Bool) → Machine → Bool
of_proc test m = elim m.cur [
  | none ↦ false
  | some i ↦ elim (get_elem? m.kernel.procs i) [ none ↦ false | some p ↦ test p ]
]

abbrev pub is_killed : Machine → Bool
is_killed = of_proc (λ p. p.killed)

-- `(tf->cs & 3) == DPL_USER`
abbrev pub from_user : ℕ → Bool
from_user cs = cs % 4 == 3

abbrev pub on_kernel : (Kernel → Kernel) → Machine → Machine
on_kernel f m = record m { kernel = f m.kernel }

-- The timer interrupt.
unfoldable pub tick : Machine → Machine
tick m =
    if m.cpu_id == 0
    then record m {
      ticks = (m.ticks + 1) % 2 ^ 32;
      kernel = record (m.kernel) { procs = wakeup1 ticks_chan m.kernel.procs };
    }
    else m

-- The last case of the switch.
unfoldable pub fault : ℕ → Machine → Option Machine
fault cs m = elim m.cur [
  | none ↦ none
  | some i ↦
      if cs % 4 == 0
      then none
      else some (
          on_kernel (λ k. record k { procs = modify k.procs i (λ p. record p { killed = true }) })
            m)
]

-- `if(proc && proc->killed && (tf->cs&3) == DPL_USER) exit();`
unfoldable pub exit_if_killed : ℕ → Machine → (Machine → Outcome) → Outcome
exit_if_killed cs m next = if is_killed m && from_user cs then exits m else next m

module _ (devices : Devices) where
  -- The switch over `tf->trapno`; `none` is the panic.
  unfoldable pub serve : ℕ → ℕ → Machine → Option Machine
  serve trapno cs m =
      if trapno == t_irq0 + irq_timer
      then some (tick m)
      else (if trapno == t_irq0 + irq_ide
          then some (on_kernel (devices.ideintr) m)
          else (if trapno == t_irq0 + irq_ide + 1
              then some m
              else (if trapno == t_irq0 + irq_kbd
                  then some (on_kernel (devices.kbdintr) m)
                  else (if trapno == t_irq0 + irq_com1
                      then some (on_kernel (devices.uartintr) m)
                      else (if trapno == t_irq0 + 7 || trapno == t_irq0 + irq_spurious
                          then some m
                          else fault cs m)))))

  -- `yield` on the clock tick.
  unfoldable pub yield_on_tick : ℕ → Machine → Machine
  yield_on_tick trapno m = elim m.cur [
    | none ↦ m
    | some i ↦
        if of_proc (λ p. p.state ==state running) m && trapno == t_irq0 + irq_timer
        then on_kernel (λ k. devices.others_run (yield i k)) m
        else m
  ]

  -- A system call, by the process `i`.
  unfoldable pub trap_syscall : ℕ → Machine → Outcome
  trap_syscall i m =
      let m' = on_kernel (devices.syscall i) m in
      if is_killed m then exits m else (if is_killed m' then exits m' else returns m')

  -- `trap`; a system call comes from a process.
  unfoldable pub trap : ℕ → ℕ → Machine → Outcome
  trap trapno cs m =
      if trapno == t_syscall
      then elim m.cur [ none ↦ panics | some i ↦ trap_syscall i m ]
      else elim (serve trapno cs m) [
        | none ↦ panics
        | some m1 ↦ exit_if_killed cs m1 λ m1. exit_if_killed cs (yield_on_tick trapno m1) returns
      ]
