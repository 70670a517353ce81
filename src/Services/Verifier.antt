-- ===== src/Services/Verifier.antt =====
-- src/services/verifier.ts: the checks of one payment, those that need the SDK and the network, and
-- what a payment that passes has shown.
pub mod Defs
pub mod Verify
pub mod Sound
pub mod Valid
pub mod Answers
mod Tests
