-- ===== src/LinkedList.antt =====
-- include/txl/linked_list.h: a stack that threads change by compare-and-swap.
pub mod Defs
pub mod Frame
pub mod Invariant
pub mod Moves
pub mod Exchanges
pub mod Preserve
pub mod Stack
pub mod Freed
mod Tests
