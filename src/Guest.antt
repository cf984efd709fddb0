-- ===== src/Guest.antt =====
-- The installation of a guest through its console: scripts/guest_installation.py.
pub mod State
pub mod Observing
pub mod Console
pub mod Grades
pub mod Accepting
pub mod Once
pub mod Sessions
pub mod Tests
