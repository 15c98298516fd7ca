-- ===== src/Uthread.antt =====
-- uthread.c and uthread.h: the user-level thread package. One process keeps up to 64 threads in
-- the array `threads`, each with its own stack, and switches between them by loading the stack
-- registers. The state of the file's static variables is `Sched`; a function that changes it
-- returns the new state. `none` is a fault: an access through a null `thread` or outside an array.
-- What `malloc` returns, and the registers that the assembly macros store, are arguments.
pub mod Ring
pub mod Sched
pub mod Ops
pub mod Policy
pub mod Inv
pub mod Switch
pub mod Yield
mod Tests
