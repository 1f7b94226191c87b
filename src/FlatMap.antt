-- ===== src/FlatMap.antt =====
-- include/txl/flat_map.h: a hash table with open addressing.
pub mod Defs
pub mod Probes
pub mod Emplace
mod Tests
