-- ===== src/Sync.antt =====
-- Order synchronisation with the ERP and the CRM: src/opsflow/order_sync,
-- src/opsflow/application/order_sync.py and src/opsflow/persistence/order_sync_repository.py.
pub mod Contracts
pub mod Eligibility
pub mod Commands
pub mod Claiming
pub mod Transactions
pub mod Effects
pub mod Soundness
pub mod ErpReceipts
pub mod Commits
pub mod Moves
pub mod Choice
pub mod ClaimMoves
pub mod System
pub mod OrderWrites
pub mod Failing
pub mod Outcomes
pub mod Receipts
pub mod Handing
pub mod Progress
pub mod Fencing
pub mod Phases
pub mod Coordinator
pub mod Coordination
pub mod Remaining
pub mod Rounds
pub mod Execution
