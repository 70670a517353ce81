-- ===== src/Services.antt =====
-- src/services: verification and settlement of payments, and what they stand on.
pub mod Chain
pub mod Samples
pub mod Verifier
pub mod Settler
pub mod Merchants
pub mod Gas
pub mod Facilitator
pub mod Queue
pub mod Batches
pub mod Sentinel
