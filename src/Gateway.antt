-- ===== src/Gateway.antt =====
-- Partner policy of a regional gateway: scripts/gateway_store.py, scripts/gateway_recovery.py and
-- scripts/gateway_transition.py.
pub mod State
pub mod Store
pub mod Transition
pub mod History
pub mod Reading
pub mod Closing
pub mod Progress
pub mod Applying
pub mod Candidates
pub mod Floors
pub mod Safety
pub mod Tests
