-- ===== src/Storage.antt =====
-- src/storage/memory_storage.ts: the settlement records, what its operations keep, and its reports.
pub mod Defs
pub mod Index
pub mod Lookup
pub mod Pages
pub mod Reports
pub mod Refined
mod Tests
