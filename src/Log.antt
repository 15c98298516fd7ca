-- ===== src/Log.antt =====
-- log.c: the log that makes the writes of a transaction happen together or not at all.
pub mod Disk
pub mod Install
pub mod Recovery
mod Tests
