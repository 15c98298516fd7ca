-- ===== src/Bio.antt =====
-- bio.c and memide.c: the buffer cache over a disk in memory.
pub mod Cache
pub mod FindLaws
pub mod CacheLaws
pub mod Links
pub mod LinkLaws
pub mod Refine
mod Tests
