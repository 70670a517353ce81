-- ===== src/Router/Fallback.antt =====
-- src/router/fallback_dispatcher.ts: providers that are tried in order.
pub mod Defs
pub mod Seamless
pub mod Whole
mod Tests
