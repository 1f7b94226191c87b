-- ===== src/FixedVector.antt =====
-- include/txl/fixed_vector.h: a vector in an array of fixed size.
pub mod Defs
pub mod Slots
pub mod Shift
pub mod Insert
pub mod Pop
pub mod Fill
mod Tests
