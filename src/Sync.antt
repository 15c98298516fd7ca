-- ===== src/Sync.antt =====
-- The mutexes and condition variables of kernel threads (proc.c from `isInQueue` on, kthread.h).
-- `Queue` has the ring of waiting thread ids, `Mutex` and `Cond` the operations, `Calls` the steps
-- in which threads interleave.
pub mod Queue
pub mod Fifo
pub mod Search
pub mod Exclusion
pub mod Traces
pub mod Handoff
pub mod Used
pub mod Stale
pub mod Races
mod Tests
pub mod Mutex
pub mod Cond
pub mod Calls
