-- ===== src/MemoryPool.antt =====
-- include/txl/memory_pool.h: chunks of pages, with a free list.
pub mod Defs
pub mod Handles
pub mod Regions
pub mod Reuse
mod Tests
