-- ===== src/BTree.antt =====
-- include/txl/btree.h: a search tree whose nodes have many entries.
pub mod Key
pub mod Sorted
pub mod Defs
pub mod Entries
pub mod Find
pub mod Split
pub mod Slots
pub mod Inserted
pub mod Insert
pub mod Rebalance
pub mod Remove
pub mod Zipper
pub mod Rotate
pub mod RotateRight
pub mod Join
pub mod Parent
pub mod Balanced
pub mod Snoc
pub mod Stolen
pub mod Focus
pub mod Deeper
pub mod RemovedMid
pub mod RemovedEnd
pub mod Removed
pub mod Root
pub mod RootRemove
pub mod Run
mod Tests
