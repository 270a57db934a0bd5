-- ===== src/Maintenance/Handlers.antt =====
-- The handlers of openstack_controller/controllers/maintenance.py and of the node events in
-- openstack_controller/controllers/node.py that write workload locks.
use openstack_controller.Common.{
  ◌==◌, if◌then◌else◌, any, before_char, String, Bool, ◌&&◌, Option, none, some, List, nat_eq,
  string_eq,
}
use mathlib.Core.List.{reverse}
use openstack_controller.Kube.Node.{has_os_role}
use openstack_controller.Maintenance.Cluster.{
  Cluster, Lock, node_workload, cluster_workload, LockState, LockInnerState, temporary, process_ndr,
  services_block_nmr, waiting_for_release, waiting_for_applied, waiting_for_health,
  node_still_exists, Exec, pure, raise, lift, gets, ◌>>=◌, ◌>>◌,
}
use openstack_controller.Maintenance.Lock.{
  Settings, lock_name, safe_get_node, node_exists, set_state, set_inner_state, set_error_message,
  unset_error_message, is_active, is_maintenance, get_release, maintenance_locks,
  acquire_internal_lock, present, absent, is_release,
}
use openstack_controller.Maintenance.Hooks.{
  Environment, Request, ServiceClass, ask_services, call_hook, cleanup_node, delete_nmr,
  each_service, get_osdpl, maintenance_node_name, pods_ready, process_nmr, release_lock,
  restore_lock, wait_until,
}

module _ (cfg : Settings) (services : List ServiceClass) where
  -- The part of the change handler under `if nwl.is_active()`.
  unfoldable pub move_into_maintenance : Environment → Request → String → String → Exec (Unit {0})
  move_into_maintenance env nmr node_name nwl = do
    node ← gets (safe_get_node node_name)
    held ← gets (λ c role. maintenance_locks cfg c role)
    allowed ← ask_services env.can_handle_nmr node held services
    if allowed
        then (do
          set_inner_state node_workload nwl LockInnerState.active
          each_service (process_nmr env node.name nmr.scope) services)
        else (do
          set_error_message node_workload nwl (services_block_nmr node.name)
          raise (temporary (services_block_nmr node.name)))

  -- The change handler behind `acquire_internal_lock`.
  unfoldable pub handle_acquired :
      Environment → Request → String → String → Option String → Exec (Unit {0})
  handle_acquired env nmr node_name nwl none = release_lock nwl
  handle_acquired env nmr node_name nwl (some osdpl) = do
    lift env.mspec
    active ← is_active node_workload nwl
    if active then move_into_maintenance env nmr node_name nwl else pure tt
    release_lock nwl

  -- The change handler for a node that exists and carries OpenStack.
  unfoldable pub carry_out : Environment → Request → String → String → Exec (Unit {0})
  carry_out env nmr node_name nwl = do
    present cfg node_workload nwl
    acquire_internal_lock cfg nwl
    osdpl ← gets get_osdpl
    handle_acquired env nmr node_name nwl osdpl

  -- The guard of the change handler.
  abbrev pub is_concerned : String → Cluster → Bool
  is_concerned node_name c =
      node_exists node_name c && has_os_role cfg.role_labels (safe_get_node node_name c)

  -- `_node_maintenance_request_change_handler`
  unfoldable pub nmr_change_handler : Environment → Request → Exec (Unit {0})
  nmr_change_handler env nmr = do
    let node_name = maintenance_node_name nmr.node_name
    concerned ← gets (is_concerned node_name)
    if concerned then carry_out env nmr node_name (lock_name node_name) else pure tt

  -- The delete handler for a node that exists and carries OpenStack.
  unfoldable pub return_to_operation :
      Environment → String → String → Option String → Exec (Unit {0})
  return_to_operation env node_name nwl none = restore_lock nwl
  return_to_operation env node_name nwl (some osdpl) = do
    held ← is_maintenance node_workload nwl
    if held
        then (do
          wait_until (λ b. b) env.node_polls
          wait_until pods_ready env.pod_polls
          lift env.mspec
          each_service (delete_nmr env node_name) (reverse services))
        else pure tt
    restore_lock nwl

  -- `_node_maintenance_request_delete_handler`
  unfoldable pub nmr_delete_handler : Environment → Request → Exec (Unit {0})
  nmr_delete_handler env nmr = do
    let node_name = maintenance_node_name nmr.node_name
    let nwl = lock_name node_name
    found ← gets (node_exists node_name)
    required ← gets (λ c. has_os_role cfg.role_labels (safe_get_node node_name c))
    osdpl ← gets get_osdpl
    if found
        then (if required
            then return_to_operation env node_name nwl osdpl
            else absent node_workload nwl)
        else restore_lock nwl

  -- The services' part in a node's deletion, where there is a deployment object.
  unfoldable pub delete_node : Environment → String → Option String → Exec (Unit {0})
  delete_node env node_name none = pure tt
  delete_node env node_name (some osdpl) = do
    lift env.mspec
    found ← gets (node_exists node_name)
    if found
        then each_service (λ service. call_hook env process_ndr service node_name)
            (reverse services)
        else pure tt

  -- `_node_deletion_request_change_handler`
  unfoldable pub ndr_change_handler : Environment → Request → Exec (Unit {0})
  ndr_change_handler env ndr = do
    let node_name = maintenance_node_name ndr.node_name
    osdpl ← gets get_osdpl
    delete_node env node_name osdpl
    release_lock (lock_name node_name)

  -- The cleanup behind a deleted lock. The node is looked up by the name of the lock.
  unfoldable pub clean_up : Environment → Lock → Option String → Exec (Unit {0})
  clean_up env nwl none = pure tt
  clean_up env nwl (some osdpl) = do
    found ← gets (node_exists nwl.name)
    if found
        then raise (temporary node_still_exists)
        else (do lift env.mspec; each_service (cleanup_node env nwl.node_name) (reverse services))

  -- `_node_workloadlock_request_delete_handler`
  unfoldable pub nwl_delete_handler : Environment → Lock → Exec (Unit {0})
  nwl_delete_handler env nwl =
      if nwl.controller_name == "openstack"
      then (do osdpl ← gets get_osdpl; clean_up env nwl osdpl)
      else pure tt

  -- `node_disable_notification_delete_handler`
  unfoldable pub ndn_delete_handler : String → Exec (Unit {0})
  ndn_delete_handler node_name = do
    found ← gets (node_exists node_name)
    if found then pure tt else absent node_workload (lock_name node_name)

  -- `node_change_handler`
  unfoldable pub node_change_handler : String → Exec (Unit {0})
  node_change_handler name = do
    required ← gets (λ c. has_os_role cfg.role_labels (safe_get_node name c))
    if required
        then present cfg node_workload (lock_name name)
        else absent node_workload (lock_name name)

  -- `node_delete_handler` with `find_ndn`
  unfoldable pub node_delete_handler : String → Exec (Unit {0})
  node_delete_handler name = do
    disabled ← gets (λ c. any (λ n. before_char b'.' n == name) c.disabled_nodes)
    if disabled then pure tt else absent node_workload (lock_name name)

  -- `cluster_maintenance_request_change_handler` for a deployment object that is there.
  unfoldable pub hand_over_cluster : Environment → String → Exec (Unit {0})
  hand_over_cluster env cwl = do
    lift env.mspec
    release ← get_release cluster_workload cwl
    applied ← gets (λ c. c.applied)
    if is_release release cfg.cluster_release
        then (if applied
            then (do
              active ← is_active cluster_workload cwl
              if active
                  then (do
                    set_error_message cluster_workload cwl waiting_for_health
                    lift env.wait_services_healthy
                    set_state cluster_workload cwl LockState.inactive
                    unset_error_message cluster_workload cwl)
                  else pure tt)
            else (do
              set_error_message cluster_workload cwl waiting_for_applied
              raise (temporary waiting_for_applied)))
        else (do
          set_error_message cluster_workload cwl waiting_for_release
          raise (temporary waiting_for_release))

  unfoldable pub hand_over : Environment → Option String → Exec (Unit {0})
  hand_over env none = pure tt
  hand_over env (some osdpl) = hand_over_cluster env (lock_name osdpl)

  unfoldable pub take_back : Option String → Exec (Unit {0})
  take_back none = pure tt
  take_back (some osdpl) = do
    set_state cluster_workload (lock_name osdpl) LockState.active
    unset_error_message cluster_workload (lock_name osdpl)

  -- `cluster_maintenance_request_change_handler`
  unfoldable pub cmr_change_handler : Environment → Exec (Unit {0})
  cmr_change_handler env = do osdpl ← gets get_osdpl; hand_over env osdpl

  -- `cluster_maintenance_request_delete_handler`
  unfoldable pub cmr_delete_handler : Exec (Unit {0})
  cmr_delete_handler = do osdpl ← gets get_osdpl; take_back osdpl
