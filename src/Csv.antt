-- ===== src/Csv.antt =====
-- include/txl/csv.h: the column splitter, lines, rows and documents.
pub mod Splitter
pub mod Line
pub mod Document
pub mod Cells
pub mod RoundTrip
pub mod Quoting
pub mod View
pub mod Table
pub mod Columns
pub mod Rows
mod Tests
