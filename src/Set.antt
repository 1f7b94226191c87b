-- ===== src/Set.antt =====
-- include/txl/set.h: a set as a sorted vector, over any `Less`.
mod Defs
pub mod Bounds
pub mod Search
pub mod Update
pub mod Algebra
mod Tests
unfoldable pub use Defs.*
