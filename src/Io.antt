-- ===== src/Io.antt =====
-- include/txl/io.h, io_buffer.h and copy.h: readers and writers, the buffer in memory, and the
-- copy loops.
mod Defs
mod Copy
pub mod Buffer
unfoldable pub use Defs.*
unfoldable pub use Copy.*
