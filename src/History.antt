-- ===== src/History.antt =====
-- scripts/history_guard.py: the protected-history guard.
pub mod Findings
pub mod Lines
pub mod Ledger
pub mod Evaluate
mod Tests
