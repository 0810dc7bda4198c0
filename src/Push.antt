-- ===== src/Push.antt =====
-- scripts/governance_preflight.py: the authorisation of a push that moves main or deletes branches.
mod Updates
mod Authorization
mod Verify
mod Words
mod Sorting
mod Mappings
mod Verdicts
mod Create
pub mod Allowed
pub mod Single
pub mod Granted
pub mod Deletable
mod Tests
unfoldable pub use Updates.*
unfoldable pub use Authorization.*
unfoldable pub use Verify.*
unfoldable pub use Create.*
