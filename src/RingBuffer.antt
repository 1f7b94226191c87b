-- ===== src/RingBuffer.antt =====
-- include/txl/ring_buffer.h: a ring over mapped memory that overwrites its oldest value.
-- The mapped memory is `slots`, one `Option` for each `Value` of `data_`: `none` is memory that
-- holds no constructed value. `made` and `destroyed` count the values that the ring constructs in
-- its slots and the destructor calls that it makes.
mod Defs
pub mod Queue
pub mod Inv
pub mod Refine
pub mod Size
pub mod Run
pub mod Lifetime
mod Tests
unfoldable pub use Defs.*
