-- ===== src/Services/Gas.antt =====
-- src/services/gas_calculator.ts: the gas limit of a transaction.
pub mod Defs
pub mod Esdt
mod Tests
