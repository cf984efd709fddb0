-- ===== src/Rotation.antt =====
-- The rotation of a managed certificate: scripts/certificate_lifecycle.py.
pub mod State
pub mod Activation
pub mod Soundness
pub mod Steps
pub mod Switching
pub mod Staging
pub mod Cleaning
pub mod Activating
pub mod Safety
pub mod Tests
