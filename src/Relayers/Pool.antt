-- ===== src/Relayers/Pool.antt =====
-- src/services/relayer_pool.ts: the class, what it keeps true, its rotation, and its making from a
-- mnemonic.
pub mod Defs
pub mod Distinct
pub mod Rotation
pub mod Scan
mod Tests
