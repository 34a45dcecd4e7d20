-- ===== src/Lexer.antt =====
-- src/lexer.c: the lexer.
pub mod Buffer
pub mod Chars
pub mod State
pub mod Line
pub mod Escape
pub mod Text
pub mod Word
pub mod Next
pub mod Goes
pub mod Stream
mod Tests
