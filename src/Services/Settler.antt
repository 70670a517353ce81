-- ===== src/Services/Settler.antt =====
-- src/services/settler.ts: one settlement from the stored record to the broadcast, and what it keeps.
pub mod Defs
pub mod Samples
pub mod Settle
pub mod Recorded
pub mod Kept
pub mod Once
pub mod Consistent
pub mod Sent
mod Tests
