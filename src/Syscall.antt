-- ===== src/Syscall.antt =====
-- syscall.c and sysproc.c: the arguments of a system call, the choice of the call, and the calls that
-- pass their arguments on.
pub mod Args
pub mod ArgsLaws
pub mod Dispatch
pub mod DispatchLaws
pub mod Calls
mod Tests
