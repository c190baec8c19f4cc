-- ===== src/Review.antt =====
-- Review commands: src/opsflow/application/review_commands.py and src/opsflow/review.
pub mod Access
pub mod Commands
pub mod Authority
pub mod Restart
pub mod Rejection
pub mod Started
pub mod Approved
