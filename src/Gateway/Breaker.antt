-- ===== src/Gateway/Breaker.antt =====
-- src/gateway/tool_circuit_breaker.ts, in three parts: the class, its behaviour call by call, and
-- any interleaving of the calls.
pub mod Defs
pub mod Laws
pub mod Machine
mod Tests
