-- ===== src/Mkfs.antt =====
-- The builder of the file system image, mkfs.c.
pub mod Image
pub mod Append
pub mod Build
pub mod BitmapLaws
pub mod AppendLaws
pub mod RoundLaws
pub mod DirectLaws
pub mod EndLaws
pub mod BuildLaws
mod Tests
