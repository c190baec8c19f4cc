-- ===== src/Intake.antt =====
-- Intake claims: src/opsflow/orchestration.
pub mod History
pub mod Kinds
pub mod Reading
pub mod Grants
pub mod Ownership
pub mod Failures
pub mod Classes
pub mod Claims
pub mod Claiming
pub mod Recording
pub mod Decisions
pub mod Exclusive
