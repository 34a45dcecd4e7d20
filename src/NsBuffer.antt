-- ===== src/NsBuffer.antt =====
-- src/ns_buffer.c: the buffer of pending writes.
pub mod Op
pub mod System
pub mod Refinement
pub mod Locks
pub mod Program
pub mod Progress
pub mod Pending
pub mod Route
mod Tests
