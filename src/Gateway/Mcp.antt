-- ===== src/Gateway/Mcp.antt =====
-- src/gateway/mcp_gateway.ts: the gateway through which agents register and call tools.
pub mod Registry
pub mod Register
pub mod Executor
pub mod Calls
pub mod Owner
pub mod Owned
pub mod Replay
pub mod Paid
pub mod Circuit
pub mod Health
pub mod Reading
mod Tests
