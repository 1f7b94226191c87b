-- ===== src/Backoff.antt =====
-- include/txl/backoff.h: the duration that grows by powers of 2 up to a bound.
pub mod Defs
pub mod Growth
mod Tests
