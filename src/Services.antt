-- ===== src/Services.antt =====
-- openstack_controller/helm.py, services/base.py and osdplstatus.py: how a service is applied, upgraded
-- and deleted.
pub mod World
pub mod Helm
pub mod Base
pub mod Keeps
pub mod Cleanup
pub mod Retried
pub mod Objects
pub mod Triple
pub mod Migrate
pub mod Attempts
pub mod Cleared
pub mod Status
pub mod Progress
pub mod Replied
pub mod Releases
pub mod Applied
pub mod Ends
pub mod Total
mod Samples
mod Tests
