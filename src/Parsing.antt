-- ===== src/Parsing.antt =====
-- src/utils/data_parser.ts: the transfers that a transaction's data asks for.
pub mod Defs
pub mod Pure
pub mod Build
pub mod Hex
pub mod RoundTrip
mod Tests
