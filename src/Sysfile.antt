-- ===== src/Sysfile.antt =====
-- file.c and sysfile.c: open files, descriptors, and the system calls on names.
pub mod Files
pub mod Calls
pub mod Names
pub mod Open
pub mod FilesLaws
pub mod NamesLaws
mod Tests
