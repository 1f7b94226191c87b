-- ===== src/DeltaVector.antt =====
-- include/txl/delta_vector.h: a series of values, each kept as the difference to the one before.
pub mod Defs
pub mod Series
mod Tests
