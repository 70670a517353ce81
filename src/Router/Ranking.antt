-- ===== src/Router/Ranking.antt =====
-- src/router: the providers of models, their order, and the slashing of those that fail.
pub mod Defs
pub mod Sorted
pub mod Ranked
pub mod Slashed
mod Tests
