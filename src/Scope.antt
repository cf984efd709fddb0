-- ===== src/Scope.antt =====
-- What a backup of a node covers: scripts/backup_contracts.py and scripts/backup_scope.py.
pub mod Resources
pub mod Separation
pub mod Tests
