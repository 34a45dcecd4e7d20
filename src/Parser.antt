-- ===== src/Parser.antt =====
-- src/parser.h, src/parser.c: the parser.
pub mod Cursor
pub mod Kinds
pub mod Gap
pub mod Outcome
pub mod Annotation
pub mod Suffix
pub mod Primary
pub mod Control
pub mod Statement
pub mod Program
pub mod Reach
pub mod Ends
pub mod Window
pub mod Spaces
pub mod Runs
mod Tests
