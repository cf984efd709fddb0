-- ===== src/Allocation.antt =====
-- The allocation of a site's machines on Proxmox: scripts/proxmox_provision.py.
pub mod State
pub mod Provisioning
pub mod Missing
pub mod Inspecting
pub mod Creating
pub mod Waiting
pub mod Tests
