-- ===== src/Console.antt =====
-- console.c: the line of input and its readers; kbd.c.
pub mod Input
pub mod InputLaws
pub mod LineLaws
pub mod Keyboard
mod Tests
