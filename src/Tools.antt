-- ===== src/Tools.antt =====
-- User programs: the matcher and the loop of grep.c, the counter of wc.c, the names of ls.c.
pub mod Regex
pub mod RegexLaws
pub mod Grep
pub mod Count
pub mod CountLaws
mod Tests
