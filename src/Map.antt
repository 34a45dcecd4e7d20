-- ===== src/Map.antt =====
-- src/value.c: the ordered hash table behind map values.
pub mod Key
pub mod Table
pub mod Links
pub mod Find
pub mod Valid
pub mod Append
pub mod Methods
pub mod Delete
pub mod Schema
mod Tests
