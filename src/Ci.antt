-- ===== src/Ci.antt =====
-- scripts/verification_primitives.py: the command `ci-status`.
pub mod Transport
pub mod Poll
pub mod Status
pub mod Green
pub mod Verdict
pub mod Bounds
pub mod Report
pub mod Retries
mod Tests
