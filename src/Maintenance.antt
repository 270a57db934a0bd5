-- ===== src/Maintenance.antt =====
-- openstack_controller/maintenance.py and openstack_controller/controllers/maintenance.py
pub mod Cluster
pub mod Lock
pub mod Hooks
pub mod Handlers
pub mod Events
pub mod Returns
pub mod Holding
pub mod Outcome
pub mod Admission
pub mod Total
pub mod Smooth
pub mod Taken
pub mod Keeps
pub mod Cap
mod Tests
