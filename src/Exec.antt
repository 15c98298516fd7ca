-- ===== src/Exec.antt =====
-- Program loading: exec.c, `loaduvm` of vm.c and `sys_exec` of sysfile.c.
pub mod Monad
pub mod Load
pub mod Stack
pub mod Run
pub mod StackLaws
mod Tests
