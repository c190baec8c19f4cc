-- ===== src/Validation.antt =====
-- src/opsflow/validation: the deterministic validation of an extracted order.
pub mod Draft
pub mod Models
pub mod Lines
pub mod Build
pub mod Engine
pub mod Totals
pub mod Clean
pub mod Acceptance
pub mod OrderRules
pub mod Blocking
pub mod Trusted
pub mod Inputs
pub mod Building
pub mod Outcome
pub mod Verdict
pub mod Preflight
pub mod Agreement
