-- ===== src/Find.antt =====
-- include/txl/find.h: the search for a run of bytes in a stream.
pub mod Defs
pub mod Faults
mod Tests
