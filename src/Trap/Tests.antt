-- ===== src/Trap/Tests.antt =====
-- The theorems on traps at small machines.
use assignment.Prelude.{◌≡◌, refl, false, [], ◌∷◌, some, pos, inr, arith}
use assignment.Kernel.{running}
use assignment.Samples.{thread, kernel}
use assignment.Trap.Handler.{
  Devices, Machine, returns, exits, is_killed, of_proc, exit_if_killed, serve, yield_on_tick, trap,
}
use assignment.Trap.HandlerLaws.{mark_killed, trap_returns_alive, exception_ends}

abbrev quiet : Devices
quiet = record {
  syscall = λ i k. k;
  ideintr = λ k. k;
  kbdintr = λ k. k;
  uartintr = λ k. k;
  others_run = λ k. k;
}

abbrev one_process : Machine
one_process = record {
  kernel = kernel (thread 3 (pos 1) running ∷ []) [] [];
  ticks = 9;
  cpu_id = 1;
  cur = some 0;
}

-- An interrupt of the keyboard.
keyboard : trap quiet 33 27 one_process ≡ returns one_process
unfolding trap serve exit_if_killed of_proc yield_on_tick
keyboard = refl

trap_returns_alive_example : is_killed one_process ≡ false
trap_returns_alive_example = trap_returns_alive quiet 33 27 one_process one_process refl keyboard

-- A page fault.
exception_ends_example : trap quiet 14 27 one_process ≡ exits (mark_killed 0 one_process)
exception_ends_example =
    exception_ends quiet 14 27 0 (thread 3 (pos 1) running) one_process (omega arith) refl refl
      (inr refl)
