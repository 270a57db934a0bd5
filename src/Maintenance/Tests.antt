-- ===== src/Maintenance/Tests.antt =====
-- Runs of the maintenance handlers on a small cluster with one compute node and one spare node.
use openstack_controller.Maintenance.Taken.{nmr_change_handler-returns}
use openstack_controller.Maintenance.Smooth.{IsSmooth, nmr_delete_handler-returns}
use openstack_controller.Common.{
  length, before_char, after_char, concat, ◌≤◌, String, ◌≡◌, refl, ◌↔◌, ◌⊎◌, true, false, Option,
  none, some, List, [], ◌∷◌, arith,
}
use openstack_controller.Kube.Node.{
  Node, compute, gateway, controller, RoleLabels, has_role, has_os_role,
}
use openstack_controller.Maintenance.Cluster.{
  Cluster, Lock, LockState, LockInnerState, ok, err, temporary, concurrency_exceeded, ◌>>=◌,
}
use openstack_controller.Maintenance.Lock.{
  Settings, lock_name, safe_get_node, get_max_parallel_by_role, reload, patch, set_state,
  set_inner_state, set_error_message, unset_error_message, is_active, is_maintenance, get_all,
  holds_role, maintenance_locks, can_handle_nmr, defer_nmr, acquire_internal_lock, merge_dummy,
  create, renew_release, post_dummy, present, absent,
}
use openstack_controller.Maintenance.Handlers.{
  move_into_maintenance, handle_acquired, carry_out, nmr_change_handler, return_to_operation,
  nmr_delete_handler, clean_up, nwl_delete_handler,
}
use openstack_controller.Maintenance.Hooks.{
  ServiceClass, Request, Environment, Scope, maintenance_node_name, get_osdpl, call_hook,
  process_nmr, delete_nmr, cleanup_node, each_service, ask_services, wait_until, release_lock,
  restore_lock,
}
use mathlib.Core.List.{reverse}
use openstack_controller.Maintenance.Events.{nmr_changed, handle, run}
use openstack_controller.Maintenance.Cap.{WellNamed}
use openstack_controller.Maintenance.Cap.Runs.{length-maintenance_locks-run}
use openstack_controller.Maintenance.Outcome.{
  IsReleased, IsRestored, nmr_change_handler-IsReleased, nmr_delete_handler-IsRestored,
}
use openstack_controller.Maintenance.Admission.{HasRoom, acquire_internal_lock-ok}

abbrev labels_of : RoleLabels
labels_of compute = ("openstack-compute-node", "enabled") ∷ []
labels_of gateway = ("openvswitch", "enabled") ∷ []
labels_of controller = ("openstack-control-plane", "enabled") ∷ []

abbrev settings : Settings
settings = record {
  role_labels = labels_of;
  nwl_parallel_max_gateway = 1;
  nwl_parallel_max_compute = 1;
  cluster_release = "";
}

abbrev services : List ServiceClass
services =
    record { service = "compute"; maintenance_api = true }
    ∷ record { service = "dashboard"; maintenance_api = false }
    ∷ []

abbrev compute_node : String → Node
compute_node name = record {
  name = name;
  labels = ("openstack-compute-node", "enabled") ∷ [];
  annotations = [];
  unschedulable = false;
  conditions = [];
}

abbrev lock_of : String → Option LockInnerState → LockState → Lock
lock_of name inner state = record {
  name = concat "openstack-" name;
  controller_name = "openstack";
  node_name = name;
  original_node = none;
  inner_state = inner;
  state = some state;
  release = none;
  error_message = none;
}

abbrev two_nodes : List Lock → Cluster
two_nodes locks = record {
  nodes = compute_node "cmp1" ∷ compute_node "cmp2" ∷ [];
  node_locks = locks;
  cluster_locks = [];
  osdpls = "osh-dev" ∷ [];
  applied = true;
  disabled_nodes = [];
  clock = 0;
  calls = [];
}

abbrev quiet : Environment
quiet = record {
  mspec = ok tt;
  can_handle_nmr = λ _ _ _. ok true;
  hook = λ _ _ _. ok tt;
  wait_services_healthy = ok tt;
  node_polls = false ∷ true ∷ [];
  pod_polls = (record { job_child = false; pod_ready = true } ∷ []) ∷ [];
}

abbrev request : String → Request
request node = record { name = "nmr"; node_name = node; scope = Scope.os }

abbrev idle_lock : Lock
idle_lock = lock_of "cmp1" none LockState.active

abbrev held_lock : Lock
held_lock = lock_of "cmp1" (some LockInnerState.active) LockState.inactive

idle_lock-WellNamed : WellNamed idle_lock
unfolding after_char
idle_lock-WellNamed = λ name e. (refl, refl)

-- The program's definitions, for tests that run them.
program : Unit {0}
unfolding ◌>>=◌ handle run maintenance_node_name get_osdpl call_hook process_nmr delete_nmr
    cleanup_node each_service ask_services wait_until release_lock restore_lock
    move_into_maintenance handle_acquired carry_out nmr_change_handler return_to_operation
    nmr_delete_handler clean_up nwl_delete_handler lock_name safe_get_node get_max_parallel_by_role
    reload patch set_state set_inner_state set_error_message unset_error_message is_active
    is_maintenance get_all holds_role maintenance_locks can_handle_nmr defer_nmr
    acquire_internal_lock merge_dummy create renew_release post_dummy present absent has_role
    has_os_role before_char after_char
program = tt

length-maintenance_locks-run_example :
    length (
      maintenance_locks settings
        (run settings services
          (nmr_changed quiet (request "cmp1") ∷ nmr_changed quiet (request "cmp2") ∷ [])
          (two_nodes (idle_lock ∷ [])))
        compute)
    ≤ 1
unfolding program
length-maintenance_locks-run_example =
    length-maintenance_locks-run settings services compute
      (nmr_changed quiet (request "cmp1") ∷ nmr_changed quiet (request "cmp2") ∷ [])
      (two_nodes (idle_lock ∷ [])) (idle_lock-WellNamed, tt) (omega arith)

nmr_change_handler-IsReleased_example :
    IsReleased "openstack-cmp1"
      (nmr_change_handler settings services quiet
        (request "cmp1.domain")
        (two_nodes (idle_lock ∷ []))).1
unfolding program
nmr_change_handler-IsReleased_example =
    nmr_change_handler-IsReleased settings services quiet (request "cmp1.domain")
      (two_nodes (idle_lock ∷ [])) refl refl

nmr_delete_handler-IsRestored_example :
    IsRestored "openstack-cmp1"
      (nmr_delete_handler settings services quiet (request "cmp1") (two_nodes (held_lock ∷ []))).1
unfolding program
nmr_delete_handler-IsRestored_example =
    nmr_delete_handler-IsRestored settings services quiet (request "cmp1")
      (two_nodes (held_lock ∷ [])) refl refl

acquire_internal_lock-ok_example :
    ((acquire_internal_lock settings "openstack-cmp1" (two_nodes (idle_lock ∷ []))).0 ≡ ok tt)
    ↔ ((false ≡ true) ⊎ HasRoom settings (two_nodes (idle_lock ∷ [])))
unfolding program
acquire_internal_lock-ok_example =
    acquire_internal_lock-ok settings "openstack-cmp1" (two_nodes (idle_lock ∷ [])) idle_lock refl

-- node that bears the name of the lock.
deleted_lock-cleans_up :
    nwl_delete_handler settings services quiet idle_lock (two_nodes [])
    ≡ each_service (cleanup_node quiet "cmp1") (reverse services) (two_nodes [])
unfolding program
deleted_lock-cleans_up = refl

-- A second node is refused while the first is in maintenance.
second_node_waits :
    (nmr_change_handler settings services quiet (request "cmp2") (two_nodes (held_lock ∷ []))).0
    ≡ err (temporary (concurrency_exceeded "cmp2"))
unfolding program
second_node_waits = refl

quiet-IsSmooth : IsSmooth quiet
unfolding program
quiet-IsSmooth = record {
  spec = refl;
  hooks = λ _ _ _. refl;
  consent = λ _ _ _. refl;
  node_ready = refl;
  pods_get_ready = refl;
}

nmr_delete_handler-returns_example :
    ((nmr_delete_handler settings services quiet (request "cmp1") (two_nodes (held_lock ∷ []))).0
      ≡ ok tt)
    × IsRestored "openstack-cmp1"
        (nmr_delete_handler settings services quiet (request "cmp1") (two_nodes (held_lock ∷ []))).1
unfolding program
nmr_delete_handler-returns_example =
    nmr_delete_handler-returns settings services quiet (request "cmp1") (two_nodes (held_lock ∷ []))
      quiet-IsSmooth (held_lock, refl, (LockState.inactive, refl)) refl

nmr_change_handler-returns_example :
    ((nmr_change_handler settings services quiet (request "cmp1") (two_nodes (idle_lock ∷ []))).0
      ≡ ok tt)
    × IsReleased "openstack-cmp1"
        (nmr_change_handler settings services quiet (request "cmp1") (two_nodes (idle_lock ∷ []))).1
unfolding program
nmr_change_handler-returns_example =
    nmr_change_handler-returns settings services quiet (request "cmp1") (two_nodes (idle_lock ∷ []))
      quiet-IsSmooth refl (idle_lock, refl, (LockState.active, refl)) refl refl
