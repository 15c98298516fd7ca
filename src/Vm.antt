-- ===== src/Vm.antt =====
-- vm.c: the page tables.
pub mod Memory
pub mod Walk
pub mod User
pub mod Grow
pub mod WalkLaws
mod Tests
