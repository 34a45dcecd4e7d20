-- ===== src/Env.antt =====
-- src/env.h, src/env.c: environments and the direct calls on them.
pub mod Table
pub mod Store
pub mod Write
pub mod Places
pub mod Closed
pub mod History
pub mod Slots
pub mod Find
pub mod Update
pub mod Readback
pub mod Commands
pub mod Entries
pub mod Typed
mod Tests
