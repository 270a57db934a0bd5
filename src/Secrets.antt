-- ===== src/Secrets.antt =====
-- openstack_controller/secrets.py: the generated credentials, and their rotation.
pub mod Names
pub mod Generated
pub mod Fill
pub mod Rotate
pub mod Filled
pub mod Promoted
pub mod Rotated
pub mod Classes
pub mod Protected
pub mod Service
mod Tests
