-- ===== src/Restore.antt =====
-- scripts/restore_transaction.py: the journalled restoration of the resources of one installation.
pub mod State
pub mod Files
pub mod Plan
mod Rollback
mod Transaction
mod Invariant
mod Finishing
mod RollingBack
mod Loading
mod Recovering
mod Preparing
mod Swapping
mod Applying
mod Suspending
mod Answering
pub mod Safety
pub mod Finality
mod Tests
