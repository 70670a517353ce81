-- ===== src/Router.antt =====
-- src/router: what the model router keeps of its clients.
pub mod Credit
pub mod Fallback
pub mod Ranking
