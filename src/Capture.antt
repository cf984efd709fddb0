-- ===== src/Capture.antt =====
-- The capture of a snapshot: scripts/backup_snapshot.py.
pub mod State
pub mod Capturing
pub mod Events
pub mod Stopping
pub mod Restarting
pub mod Recovering
pub mod Safety
pub mod Tests
