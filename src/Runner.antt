-- ===== src/Runner.antt =====
-- scripts/batch_runner.py: the fixed steps of a batch and its control record.
mod Plan
mod Records
mod Start
mod Run
mod Distinct
pub mod Complete
pub mod Order
pub mod Reached
pub mod Locked
mod Tests
unfoldable pub use Plan.*
unfoldable pub use Records.*
unfoldable pub use Start.*
unfoldable pub use Run.*
