-- ===== src/Status.antt =====
-- The operational evidence of a node: scripts/product_status.py.
pub mod States
pub mod Collecting
pub mod Bounds
pub mod Attention
pub mod Tests
pub mod Host
pub mod Discovering
pub mod Probing
pub mod Certificates
pub mod Backups
pub mod Worker
pub mod Grounds
pub mod Sound
pub mod ValidCertificates
pub mod CurrentBackups
pub mod Healthy
pub mod ProbingTests
