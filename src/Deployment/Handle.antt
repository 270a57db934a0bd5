-- ===== src/Deployment/Handle.antt =====
-- The handlers of openstack_controller/controllers/openstackdeployment.py, and `services` of
-- openstack_controller/layers.py.
use openstack_controller.Common.{
  ◌==◌, if◌then◌else◌, select, any, contains, ℕ, String, Bool, true, false, not, ◌&&◌, List, [],
  ◌∷◌, ◌++◌, map, nat_eq, string_eq,
}
use openstack_controller.Deployment.Tasks.{Task, Action}
use openstack_controller.Deployment.Steps.{
  Status, set_osdpl_status, cwl_present, cwl_absent, ensure_admin_secret, cache_restart,
  cache_wait_ready, rotate_admin, rotate_service, wait_database_healthy, suspend_descheduler,
  cleanup_helm_cache, set_service_waiting, permanent, Environment, Exec, pure, raise, ◌>>◌, each,
  step, run_tasks,
}

pub data Reason : Type 0 where
  create update resume : Reason

-- One entry of kopf's diff, with the old and the new list of names where it is about one.
pub record Change : Type 0 where
  pub field : List String
  pub old : List String
  pub new : List String

pub data Group : Type 0 where
  admin service : Group

-- What the handler reads of the deployment object and of its change.
pub record Deployment : Type 0 where
  pub draft : Bool
  -- `features.services` of the merged spec
  pub services : List String
  pub diff : List Change
  pub reason : Reason
  -- whether `job_mariadb_phy_restore` is set in the old and the new object
  pub old_restore : Bool
  pub new_restore : Bool
  -- `status.credentials.<group>.rotation_id`, 0 where there is none
  pub old_rotation_id : Group → ℕ
  pub new_rotation_id : Group → ℕ

abbrev pub is_field : List String → List String → Bool
is_field [] [] = true
is_field (a ∷ rest) (b ∷ others) = a == b && is_field rest others
is_field _ _ = false

-- `set(...)` as a list, in the order of the last occurrences.
unfoldable pub distinct : List String → List String
distinct [] = []
distinct (s ∷ ss) = let rest = distinct ss in if contains rest s then rest else s ∷ rest

-- `set(a) - set(b)`
unfoldable pub difference : List String → List String → List String
difference a b = select (λ s. not (contains b s)) (distinct a)

unfoldable pub is_openstack_version_changed : List Change → Bool
is_openstack_version_changed diff =
    any (λ c. is_field c.field ("spec" ∷ "openstack_version" ∷ [])) diff

abbrev pub upgrade_order : List String
upgrade_order =
    "identity" ∷ "placement" ∷ "image" ∷ "networking" ∷ "compute" ∷ "block-storage"
    ∷ "load-balancer" ∷ "dns" ∷ "key-manager" ∷ "orchestration" ∷ "dashboard" ∷ "object-storage"
    ∷ "instance-ha" ∷ "shared-file-system" ∷ []

unfoldable pub get_os_services_for_upgrade : List String → List String
get_os_services_for_upgrade enabled = select (λ s. contains enabled s) upgrade_order

-- The services to apply, first of what `layers.services` returns.
unfoldable pub services_to_apply : Deployment → List String
services_to_apply osdpl = distinct osdpl.services

-- The last change of the list of services says which ones to delete.
abbrev pub deleted_by : List Change → List String → List String
deleted_by [] found = found
deleted_by (c ∷ diff) found = deleted_by diff (
    if is_field c.field ("spec" ∷ "features" ∷ "services" ∷ [])
    then difference c.old c.new
    else found)

unfoldable pub services_to_delete : Deployment → List String
services_to_delete osdpl = deleted_by osdpl.diff []

unfoldable pub check_handling_allowed : Bool → Bool → Reason → Exec
check_handling_allowed old new create = if new then raise permanent else pure
check_handling_allowed old new resume = if new then raise permanent else pure
check_handling_allowed old new update = if new && old then raise permanent else pure

abbrev pub task : Action → String → Task
task action name = record { action = action; service = name }

module _ (env : Environment) where
  unfoldable pub rotate_service_secret : ℕ → String → Exec
  rotate_service_secret id name =
      if env.has_secret name then step env (rotate_service name id) else pure

  -- `_rotate_creds`
  unfoldable pub rotate_group : Group → ℕ → List String → Exec
  rotate_group admin id enabled =
      step env (rotate_admin id)
      >> run_tasks env (task Action.apply "database" ∷ [])
      >> step env wait_database_healthy
  rotate_group service id enabled = each (rotate_service_secret id) enabled

  unfoldable pub rotate_if_changed : Deployment → List String → Group → Exec
  rotate_if_changed osdpl enabled g =
      if not (osdpl.new_rotation_id g == 0)
        && not (osdpl.new_rotation_id g == osdpl.old_rotation_id g)
      then rotate_group g (osdpl.new_rotation_id g) enabled
      else pure

  unfoldable pub rotate_credentials : Deployment → List String → Exec
  rotate_credentials osdpl enabled = each (rotate_if_changed osdpl enabled) (admin ∷ service ∷ [])

  -- The part of `_handle` under `is_openstack_version_changed`.
  unfoldable pub upgrade_services : List String → Exec
  upgrade_services enabled =
      step env suspend_descheduler
      >> each (λ s. step env (set_service_waiting s))
          (distinct (get_os_services_for_upgrade enabled ++ enabled))
      >> each (λ s. run_tasks env (task Action.upgrade s ∷ []))
          (get_os_services_for_upgrade enabled)

  unfoldable pub handle_services : Deployment → Exec
  handle_services osdpl =
      rotate_credentials osdpl (services_to_apply osdpl)
      >> (if is_openstack_version_changed osdpl.diff
          then upgrade_services (services_to_apply osdpl)
          else pure)
      >> run_tasks env (
          map (task Action.apply) (services_to_apply osdpl)
          ++ map (task Action.delete) (services_to_delete osdpl))

  -- What `_handle` does before its last two steps, where the deployment is no draft.
  unfoldable pub bring_about : Deployment → Exec
  bring_about osdpl =
      step env (set_osdpl_status Status.applying)
      >> step env cwl_present
      >> check_handling_allowed osdpl.old_restore osdpl.new_restore osdpl.reason
      >> step env ensure_admin_secret
      >> (if env.images_cached then pure else step env cache_restart)
      >> step env cache_wait_ready
      >> handle_services osdpl

  -- `_handle`
  unfoldable pub handle : Deployment → Exec
  handle osdpl =
      if osdpl.draft
      then pure
      else bring_about osdpl
        >> step env (set_osdpl_status Status.applied)
        >> step env cleanup_helm_cache

  -- `_delete`
  unfoldable pub delete : Deployment → Exec
  delete osdpl =
      each (λ s. run_tasks env (task Action.delete s ∷ [])) (services_to_apply osdpl)
      >> step env cwl_absent
