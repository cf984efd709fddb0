-- ===== src/Journey.antt =====
-- The preparation of a deployment by questions: scripts/product_journey.py.
pub mod Answers
pub mod Machines
pub mod Wizard
pub mod Asking
pub mod Saving
pub mod Loading
pub mod Roles
pub mod Replacing
pub mod Tests
