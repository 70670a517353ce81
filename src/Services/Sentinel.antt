-- ===== src/Services/Sentinel.antt =====
-- src/services/relayer_gas_sentinel.ts: relayers that are topped up from the treasury.
pub mod Defs
pub mod Refills
pub mod Whole
mod Tests
