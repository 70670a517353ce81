-- ===== src/Gateway.antt =====
-- src/gateway: the parts of the AI and MCP gateways that keep state of their own.
pub mod Breaker
pub mod Mcp
