-- ===== src/Http.antt =====
-- include/txl/http.h: percent decoding, the query string parser and the HTTP/1.1 request parser.
pub mod Hex
pub mod Query
pub mod Request
pub mod Process
pub mod Encode
pub mod Escape
pub mod Decode
pub mod Steps
pub mod Params
pub mod Rounds
pub mod Headers
pub mod RoundTrip
mod Tests
