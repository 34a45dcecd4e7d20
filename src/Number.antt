-- ===== src/Number.antt =====
-- src/builtins.c and src/parser.c: integers as text in a base.
pub mod Text
pub mod Digits
pub mod RoundTrip
pub mod Literal
pub mod Float
mod Tests
