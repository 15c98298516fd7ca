-- ===== src/Umalloc.antt =====
-- The allocator of the user programs, umalloc.c.
pub mod Heap
pub mod SearchLaws
pub mod InsertLaws
pub mod FreeLaws
mod Tests
