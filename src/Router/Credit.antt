-- ===== src/Router/Credit.antt =====
-- src/router/two_phase_reconciler.ts: the credit of clients.
pub mod Defs
pub mod Account
mod Tests
