-- ===== src/Parser/Ends.antt =====
-- src/parser.c: how far the parse functions go, with the fuel they need.
pub mod Steps
pub mod Annotation
pub mod Suffix
pub mod Primary
pub mod Skips
pub mod Control
pub mod Statement
pub mod Program
pub mod Grammar
