-- ===== src/Lib.antt =====
-- Verification library of the OpenStack controller: models of the parts of the package
-- openstack_controller that decide, and theorems about them.
--
-- Maintenance (openstack_controller/maintenance.py, controllers/maintenance.py, controllers/node.py)
--   Cluster   the API server's objects as one record, and methods on it that may raise: what was
--             written before a raise stays written
--   Lock      LockBase, NodeWorkloadLock and ClusterWorkloadLock, method by method
--   Hooks     the services' maintenance API (services/base.py), the waiting loops, the closing writes
--   Handlers  the handlers of NodeMaintenanceRequest, ClusterMaintenanceRequest,
--             NodeDeletionRequest, NodeWorkloadLock, NodeDisableNotification and of nodes
--   Events    runs of these handlers, with nodes that leave and time that passes in between
--   Keeps, Returns, Holding, Total   rules for what methods keep of a state and for blocks that return
--   Cap, Outcome, Admission, Smooth, Taken   the theorems, and Tests the runs on a small cluster
--   Each event is handled as one step, which MAINTENANCE_LOCK gives acquire_internal_lock in the
--   source; two handlers that interleave elsewhere are not modelled. The services' hooks, the
--   rendering of the spec and the polls of the two waiting loops are answers that the environment of
--   a handler gives; a loop whose polls end is still waiting, which is an error of its own. A node
--   that appears or changes its labels is not an event of a run.
-- Deployment (openstack_controller/controllers/openstackdeployment.py, services of layers.py)
--   Tasks     run_task: rounds of coroutines, which return, fail for good or are to be run again. How a
--             coroutine ends is an answer that may depend on the round and on the steps before. The loop
--             runs on fuel; Rounds says which fuel is enough
--   Steps     steps that are recorded and then succeed or raise, and methods that take them
--   Handle    _handle, _delete, rotate_credentials, check_handling_allowed, get_os_services_for_upgrade.
--             A set is a list with no name twice, in one order that the source leaves open
--   Named     which services are applied, upgraded and deleted
--   Outline   the plan of steps, written out on its own
--   Follows, Plan, Succeeds   the theorems, and Tests an upgrade of three services
-- Admission (openstack_controller/admission/validators/openstack.py, CronValidator of utils.py)
--   Versions  releases, and the distance that an upgrade may go
--   Cron      schedules as code points of ASCII
--   OpenStack validate, on a spec that holds what the validator reads and the rest as one text
--   Credentials   _validate_credentials, on rotation ids from 0 on
--   Neutron   the validator of networking (validators/neutron.py), on which features are on
--   Storage, Features   the validators of glance, cinder, manila, and of nova, barbican, ironic,
--             keystone, database
--   Upgrade, Passed, Rotation, Agreed   the theorems, with what passes the guards in
--             Accepted, Stored and Sections, what is right in Right, and Tests some requests
-- Migration (openstack_controller/cli/ovs_ovn_migration.py)
--   Stages    do_migration over the stages of a workflow, with the configmap StateCM as a dictionary.
--             The executables of the stages and the answers of the operator are given
--   Resume, Executed   the theorems, and Tests some runs
-- Services (openstack_controller/helm.py, services/base.py, services/__init__.py, osdplstatus.py)
--   World     objects, releases and statuses, and methods on them that may raise
--   Helm      HelmManager. What the helm program replies to a command, and does to the releases and to
--             the objects, is given; Releases says what is documented of it. A lock
--             admits one command at a time, so a command is one step. The retries run on
--             fuel; Retried says which fuel is enough. A helm that is not done in time has done its work
--             before the next command
--   Base      set_children_status, apply, upgrade, delete and cleanup_immutable_resources of Service, with
--             rendering, hashes, images and healths as given functions. The patch of a status does not fail,
--             and every status has a fingerprint and a version, as set_service_status writes them
--   Migrate   _migrate_servers of Nova (services/__init__.py), on polls of the compute service. The rounds
--             are fuel: a loop whose polls go on is still running, which is an outcome of its own
--   Attempts, Cleared   its theorem
--   Progress  lcm_progress of the statuses, and its theorem
--   Keeps, Cleanup, Triple, Replied   rules for what methods keep, and for what holds after them
--   Ends      rules for methods that come to an end
--   Retried, Objects, Status, Releases, Applied, Total   the theorems, and Tests a service,
--             with the helm program of Samples
-- Policies (openstack_controller/resource_view.py)
--   View      ChildObjectView on the children with their connections; the hash of ports is given
--   Squash, Declared   the theorems, and Tests three services
-- Secrets (openstack_controller/secrets.py)
--   Names     generate_password, generate_name, generate_credentials. What urandom returns is given
--   Fill      MultiSecret._fill on texts and dictionaries
--   Rotate    get_secrets_sorted and MultiSecret.rotate on the secrets of a namespace. What create and
--             the round trip of from_json and to_json give is given; base64 and JSON are left out
--   Classes   rotation_fields of the classes of secrets
--   Generated, Filled, Promoted, Rotated, Protected, Service   the theorems, and Tests a rotation
-- Kube (openstack_controller/kube.py, constants.py)
--   Node      roles and readiness of nodes
--   Workloads readiness of workloads, jobs, finalizers, volumes and the lock of stateful sets
--   Readiness the theorems, and Tests some workloads
-- Common      Boolean tests, lists over the native numbers, association lists, texts, steps that may raise
--
-- Not modelled: rendering of charts and templates, the transport to Kubernetes and to OpenStack,
-- certificates and keys, the copies of secrets in other namespaces, the health of applications, the
-- services' hooks but for the migration of instances, the exporter, osctl, the tempest filters, and the
-- other command line tools.
pub mod Common
pub mod Kube
pub mod Maintenance
pub mod Deployment
pub mod Admission
pub mod Migration
pub mod Secrets
pub mod Services
pub mod Policies
