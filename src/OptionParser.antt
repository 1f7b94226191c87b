-- ===== src/OptionParser.antt =====
-- include/txl/option_parser.h: the options of a command line.
pub mod Defs
pub mod Parse
mod Tests
