-- ===== src/Services/Merchants.antt =====
-- src/services/merchant_pool.ts: the merchants by shard.
pub mod Defs
pub mod Sending
mod Tests
