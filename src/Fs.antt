-- ===== src/Fs.antt =====
-- fs.c and fs.h: blocks, inodes, files, directories and path names.
pub mod Block
pub mod Alloc
pub mod AllocLaws
pub mod Dinode
pub mod Monad
pub mod MonadLaws
pub mod Inode
pub mod InodeLaws
pub mod Map
pub mod File
pub mod FileLaws
pub mod Dir
pub mod DirLaws
pub mod Path
pub mod PathLaws
mod Tests
