-- ===== src/Guard.antt =====
-- scripts/c9_base_guard.py and scripts/c9_local_history_guard.py: the read-only guards before a
-- return to Base.
pub mod Git
pub mod Classify
pub mod Inventory
pub mod Ready
pub mod Preserved
mod Tests
