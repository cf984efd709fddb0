-- ===== src/Agreement.antt =====
-- Signed consent between two institutions: scripts/regional_agreements.py, and peer_rules of
-- scripts/gateway_contracts.py.
pub mod Values
pub mod Documents
pub mod Verifying
pub mod Consenting
pub mod Peers
pub mod Approval
pub mod RoundTrip
pub mod Catalogue
pub mod Ordering
pub mod Tests
