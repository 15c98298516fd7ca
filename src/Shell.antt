-- ===== src/Shell.antt =====
-- sh.c: the parser of the shell.
pub mod Token
pub mod TokenLaws
pub mod Parser
pub mod ParserLaws
mod Tests
