-- ===== src/Tree.antt =====
-- include/txl/tree.h: `binary_search_tree`, over any `Less`.
mod Defs
pub mod Inorder
pub mod Order
pub mod Find
pub mod Remove
mod Tests
unfoldable pub use Defs.*
