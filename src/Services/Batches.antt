-- ===== src/Services/Batches.antt =====
-- src/services/pipelined_settlement_queue.ts: settlements sent in batches, one batch per relayer.
pub mod Defs
pub mod Count
pub mod Completed
pub mod Once
mod Tests
