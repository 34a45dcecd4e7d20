-- ===== src/Value.antt =====
-- src/value.h, src/value.c: the tagged value, and declared types.
mod Defs
pub mod Types
pub use Defs.*
