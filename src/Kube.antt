-- ===== src/Kube.antt =====
-- openstack_controller/kube.py: the objects of the Kubernetes API as the controller reads them.
-- The fields that the code never reads are left out of the records.
pub mod Node
pub mod Workloads
pub mod Readiness
mod Tests
