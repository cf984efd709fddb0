-- ===== src/Schedule.antt =====
-- Scheduled backups: the frozen runtime and the record of attempts of scripts/backup_schedule.py.
pub mod State
pub mod Refreshing
pub mod Stages
pub mod Resuming
pub mod Starting
pub mod Safety
pub mod Recording
pub mod Tests
