-- ===== src/Paths.antt =====
-- scripts/execution_record.py: the paths that an execution record may name.
pub mod Syntax
pub mod Confined
pub mod Artifact
mod Tests
