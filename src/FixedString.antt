-- ===== src/FixedString.antt =====
-- include/txl/fixed_string.h: strings of a bounded length in place.
pub mod Defs
pub mod View
mod Tests
