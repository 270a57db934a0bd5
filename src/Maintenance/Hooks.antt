-- ===== src/Maintenance/Hooks.antt =====
-- The services' maintenance API (`MaintenanceApiMixin` of openstack_controller/services/base.py), and
-- the loops and the closing writes of the handlers in openstack_controller/controllers/maintenance.py.
--
-- What a service does to OpenStack in a hook is not modelled: a hook is a call that is recorded and
-- that succeeds or raises, as the environment of the handler says.
use openstack_controller.Common.{
  if◌then◌else◌, all, before_char, String, Bool, true, false, ◌&&◌, ◌||◌, Option, none, some, List,
  [], ◌∷◌,
}
use openstack_controller.Kube.Node.{Node, NodeRole}
use openstack_controller.Maintenance.Cluster.{
  Cluster, Lock, node_workload, LockState, LockInnerState, still_waiting, Result, Hook,
  remove_node_from_scheduling, prepare_node_for_reboot, prepare_node_after_reboot,
  add_node_to_scheduling, cleanup_metadata, cleanup_persistent_data, Exec, pure, raise, lift,
  modify, ◌>>=◌, ◌>>◌,
}
use openstack_controller.Maintenance.Lock.{set_state, set_inner_state, unset_error_message}

-- An entry of `services.ORDERED_SERVICES`. `maintenance_api` says that it has `MaintenanceApiMixin`.
pub record ServiceClass : Type 0 where
  pub service : String
  pub maintenance_api : Bool

pub data Scope : Type 0 where
  drain os : Scope

pub record Request : Type 0 where
  pub name : String
  -- `spec.nodeName`
  pub node_name : String
  pub scope : Scope

pub record Pod : Type 0 where
  pub job_child : Bool
  pub pod_ready : Bool

-- What a handler meets outside the API server.
pub record Environment : Type 0 where
  -- rendering of the merged spec, which may fail
  pub mspec : Result (Unit {0})
  pub can_handle_nmr : String → Node → (NodeRole → List Lock) → Result Bool
  pub hook : Hook → String → String → Result (Unit {0})
  pub wait_services_healthy : Result (Unit {0})
  -- what the two waiting loops see, one entry each ten seconds
  pub node_polls : List Bool
  pub pod_polls : List (List Pod)

-- `body["spec"]["nodeName"].split(".")[0]`
unfoldable pub maintenance_node_name : String → String
maintenance_node_name name = before_char b'.' name

-- `kube.get_osdpl()`: the deployment object, if there is exactly one.
unfoldable pub get_osdpl : Cluster → Option String
get_osdpl c = elim c.osdpls [ [] ↦ none | name ∷ rest ↦ elim rest [ [] ↦ some name | _ ↦ none ] ]

-- `is_reboot_possible`
abbrev pub is_reboot_possible : Scope → Bool
is_reboot_possible os = true
is_reboot_possible drain = false

module _ (env : Environment) where
  -- A call of a service's hook is recorded, and may raise.
  unfoldable pub call_hook : Hook → String → String → Exec (Unit {0})
  call_hook hook service node = do
    modify
        (λ c. record c { calls = record { hook = hook; service = service; node = node } ∷ c.calls })
    lift (env.hook hook service node)

  -- `MaintenanceApiMixin.process_nmr`
  unfoldable pub process_nmr : String → Scope → String → Exec (Unit {0})
  process_nmr node scope service = do
    call_hook remove_node_from_scheduling service node
    if is_reboot_possible scope then call_hook prepare_node_for_reboot service node else pure tt

  -- `MaintenanceApiMixin.delete_nmr`
  unfoldable pub delete_nmr : String → String → Exec (Unit {0})
  delete_nmr node service = do
    call_hook prepare_node_after_reboot service node
    call_hook add_node_to_scheduling service node

  unfoldable pub cleanup_node : String → String → Exec (Unit {0})
  cleanup_node node service = do
    call_hook cleanup_metadata service node
    call_hook cleanup_persistent_data service node

-- `for service in ...: if service.maintenance_api: ...`
unfoldable pub each_service : (String → Exec (Unit {0})) → List ServiceClass → Exec (Unit {0})
each_service act [] = pure tt
each_service act (s ∷ rest) = do
  if s.maintenance_api then act s.service else pure tt
  each_service act rest

-- `all(services_can_handle_nmr.values())`, after every service was asked.
unfoldable pub ask_services :
    (String → Node → (NodeRole → List Lock) → Result Bool)
    → Node
    → (NodeRole → List Lock)
    → List ServiceClass
    → Exec Bool
ask_services ask node held [] = pure true
ask_services ask node held (s ∷ rest) = do
  answer ← (if s.maintenance_api then lift (ask s.service node held) else pure true)
  others ← ask_services ask node held rest
  pure (answer && others)

-- A loop that sleeps until a poll succeeds. It is still waiting where the polls end.
unfoldable pub wait_until : {A : Type 0} → (A → Bool) → List A → Exec (Unit {0})
wait_until good [] = raise still_waiting
wait_until good (a ∷ polls) = let rest = wait_until good polls in if good a then pure tt else rest

-- No pod but those of jobs is unready.
abbrev pub pods_ready : List Pod → Bool
pods_ready = all (λ p. p.job_child || p.pod_ready)

-- The end of a successful change: the node may go down.
unfoldable pub release_lock : String → Exec (Unit {0})
release_lock nwl = do
  set_state node_workload nwl LockState.inactive
  unset_error_message node_workload nwl

-- The end of a successful return to operation.
unfoldable pub restore_lock : String → Exec (Unit {0})
restore_lock nwl = do
  set_inner_state node_workload nwl LockInnerState.inactive
  set_state node_workload nwl LockState.active
  unset_error_message node_workload nwl
