-- ===== src/Site.antt =====
-- The plan of a portable site and its local network: scripts/portable_plan.py and
-- scripts/portable_network.py.
pub mod Addresses
pub mod Plan
pub mod Network
pub mod Separation
pub mod Placement
pub mod Isolation
pub mod Reservation
pub mod Preview
pub mod Tests
