-- ===== src/Services/Queue.antt =====
-- src/services/settlement_queue.ts: the workers, the queue over them, and the retries of one request.
pub mod Defs
pub mod Retry
pub mod Machine
pub mod Load
pub mod Bounds
pub mod Permanent
mod Tests
