-- ===== src/Cells.antt =====
-- src/result.cpp: the cells of a result that hold no other values, as PHP values.
pub mod Value
pub mod Times
pub mod Scalar
pub mod Bits
pub mod Uuid
pub mod Wide
pub mod Scaling
pub mod Nested
mod Tests
