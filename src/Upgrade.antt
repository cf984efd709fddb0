-- ===== src/Upgrade.antt =====
-- The upgrade of an application: scripts/upgrade_transaction.py.
pub mod State
pub mod Journals
pub mod Transaction
pub mod Invariant
pub mod Finishing
pub mod RollingBack
pub mod Upgrading
pub mod Answering
pub mod Recovering
pub mod Safety
pub mod Finality
pub mod Freezing
pub mod Tests
pub mod Files
pub mod Originals
pub mod Replacing
pub mod Upgrades
pub mod FilesTests
pub mod Catalogue
pub mod Planning
pub mod Transitions
pub mod Reviewed
pub mod PlanTests
