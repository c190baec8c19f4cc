-- ===== src/Tests.antt =====
-- Concrete runs of the model and applications of its theorems to them.
pub mod Data
pub mod Domain
pub mod Sync
pub mod Notify
pub mod Intake
pub mod Review
pub mod Validation
pub mod Application
pub mod Creation
pub mod Coordinator
pub mod Claims
