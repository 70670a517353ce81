-- ===== src/Tollbooth.antt =====
-- src/tollbooth: the server that lets crawlers pay for pages.
pub mod Pricing
pub mod Abuse
pub mod Server
pub mod Paid
pub mod Cache
pub mod Receipt
pub mod Prices
pub mod Reports
mod Tests
