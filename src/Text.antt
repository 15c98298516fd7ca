-- ===== src/Text.antt =====
-- Numbers and formats as text: printf.c, ulib.c, and the printing of console.c.
pub mod Number
pub mod Format
pub mod Ulib
pub mod NumberLaws
pub mod FormatLaws
mod Tests
