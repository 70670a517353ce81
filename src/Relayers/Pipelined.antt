-- ===== src/Relayers/Pipelined.antt =====
-- src/services/pipelined_relayer_pool.ts: the class and its nonce trackers, the order of the nonces
-- that it hands out, and the padding loop at the end of `fromMnemonic`.
pub mod Defs
pub mod Nonces
pub mod Padding
mod Tests
