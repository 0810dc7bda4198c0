-- ===== src/Primitives.antt =====
-- scripts/verification_primitives.py: the commands that count, hash and compare. `ci-status` is the
-- module Ci.
mod Report
mod Count
mod Digest
mod Diff
pub mod Occurrences
pub mod Platforms
pub mod Passes
pub mod DiffPasses
mod Tests
unfoldable pub use Report.*
unfoldable pub use Count.*
unfoldable pub use Digest.*
unfoldable pub use Diff.*
