-- ===== src/Deployment.antt =====
-- openstack_controller/controllers/openstackdeployment.py
pub mod Tasks
pub mod Rounds
pub mod Steps
pub mod Handle
pub mod Follows
pub mod Named
pub mod Outline
pub mod Plan
pub mod Succeeds
mod Tests
