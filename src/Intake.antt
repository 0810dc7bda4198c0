-- ===== src/Intake.antt =====
-- scripts/prompt_intake.py: the copy of a delivered prompt.
mod Checks
mod Copy
pub mod Passes
mod Tests
unfoldable pub use Checks.*
unfoldable pub use Copy.*
