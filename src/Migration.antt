-- ===== src/Migration.antt =====
-- openstack_controller/cli/ovs_ovn_migration.py
pub mod Stages
pub mod Resume
pub mod Executed
mod Tests
