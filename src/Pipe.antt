-- ===== src/Pipe.antt =====
-- pipe.c: the buffer of a pipe as a ring of bytes, and its operations.
pub mod Buffer
pub mod Ops
pub mod Transfer
pub mod Roundtrip
pub mod Ends
mod Tests
