-- ===== src/Lexer.antt =====
-- include/txl/lexer.h: the tokenizer and its character classes.
mod Cursor
mod Tokens
pub mod Span
unfoldable pub use Cursor.*
unfoldable pub use Tokens.*
