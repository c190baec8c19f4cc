-- ===== src/Domain.antt =====
-- src/opsflow/domain: the order aggregate, its records and its lifecycle.
pub mod State
pub mod Records
pub mod Order
pub mod Lifecycle
pub mod Approval
pub mod Promotion
