-- ===== src/StateEdit.antt =====
-- scripts/state_edit.py: the canonical writer for the registered state files.
pub mod Codes
pub mod Ops
pub mod Checks
pub mod Apply
pub mod Classified
pub mod Writes
pub mod Outcome
pub mod Promise
pub mod Rerun
pub mod Seal
pub mod Sorted
pub mod SealClassify
pub mod SealApply
mod Codec
mod Tests
