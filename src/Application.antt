-- ===== src/Application.antt =====
-- src/opsflow/application: the operations that combine the engine, the order and the database.
pub mod Contract
pub mod Checks
pub mod Validation
pub mod Routing
pub mod Stored
pub mod Committed
pub mod Outcome
pub mod Creation
pub mod Idempotency
