-- ===== src/Trap.antt =====
-- Traps (trap.c): system calls, interrupts and faults.
pub mod Handler
pub mod HandlerLaws
mod Tests
