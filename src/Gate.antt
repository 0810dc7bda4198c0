-- ===== src/Gate.antt =====
-- scripts/gate_runner.py: the canonical gate runner.
pub mod Format
pub mod Run
pub mod Verify
pub mod Lines
pub mod Report
pub mod Transcript
pub mod Agreement
pub mod Inner
pub mod LatestRun
pub mod Certified
pub mod Timeout
mod Tests
