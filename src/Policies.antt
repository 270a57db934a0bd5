-- ===== src/Policies.antt =====
-- openstack_controller/resource_view.py: the network policies that follow from the declared connections.
pub mod View
pub mod Squash
pub mod Declared
mod Tests
