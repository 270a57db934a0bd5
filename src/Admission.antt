-- ===== src/Admission.antt =====
-- openstack_controller/admission
pub mod Versions
pub mod Upgrade
pub mod Cron
pub mod OpenStack
pub mod Storage
pub mod Features
pub mod Sections
pub mod Agreed
pub mod Right
pub mod Accepted
pub mod Stored
pub mod Passed
pub mod Neutron
pub mod Credentials
pub mod Rotation
mod Tests
