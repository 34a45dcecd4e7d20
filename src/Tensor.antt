-- ===== src/Tensor.antt =====
-- src/value.h, src/value.c: tensors.
pub mod Index
pub mod Slice
pub mod Shape
pub mod Get
pub mod Part
pub mod Positions
pub mod Sliced
pub mod Pointer
mod Tests
