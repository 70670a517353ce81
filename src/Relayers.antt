-- ===== src/Relayers.antt =====
-- src/services/relayer_pool.ts and src/services/pipelined_relayer_pool.ts: the signers that pay the
-- gas, by shard.
pub mod Pool
pub mod Pipelined
