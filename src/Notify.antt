-- ===== src/Notify.antt =====
-- Durable notifications: src/opsflow/notifications and
-- src/opsflow/persistence/notification_repository.py.
pub mod Contracts
pub mod Intents
pub mod Delivery
pub mod Soundness
pub mod Outcome
pub mod Changes
pub mod Claiming
pub mod System
