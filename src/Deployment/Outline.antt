-- ===== src/Deployment/Outline.antt =====
-- The plan of the deployment handlers: which steps they are to take, in the order of time.
use openstack_controller.Common.{
  ◌==◌, if◌then◌else◌, any, ℕ, String, Bool, not, ◌&&◌, List, [], ◌∷◌, ◌++◌, map, nat_eq, string_eq,
}
use openstack_controller.Deployment.Tasks.{Action}
use openstack_controller.Deployment.Steps.{
  Status, Step, set_osdpl_status, cwl_present, ensure_admin_secret, cache_restart, cache_wait_ready,
  rotate_admin, rotate_service, wait_database_healthy, suspend_descheduler, cleanup_helm_cache,
  set_service_waiting, start_tasks, Environment,
}
use openstack_controller.Deployment.Handle.{
  is_field, create, resume, update, Group, admin, service, Deployment, distinct, services_to_apply,
  services_to_delete, task, Reason,
}
use openstack_controller.Deployment.Named.{to_upgrade}
use openstack_controller.Deployment.Follows.{all_steps}

-- What changes while the database is being restored is refused: anything where the new object says so,
-- but an update only where the old one does, too.
abbrev pub refuses : (old new : Bool) → Reason → Bool
refuses old new create = new
refuses old new resume = new
refuses old new update = new && old

module _ (env : Environment) (osdpl : Deployment) where
  abbrev pub secret_steps : ℕ → String → List Step
  secret_steps id name = if env.has_secret name then rotate_service name id ∷ [] else []

  abbrev pub group_steps : Group → ℕ → List Step
  group_steps admin id =
      rotate_admin id ∷ start_tasks (task Action.apply "database" ∷ []) ∷ wait_database_healthy ∷ []
  group_steps service id = all_steps (secret_steps id) (services_to_apply osdpl)

  -- A rotation id that is new and not 0.
  abbrev pub rotates : Group → Bool
  rotates g =
      not (osdpl.new_rotation_id g == 0) && not (osdpl.new_rotation_id g == osdpl.old_rotation_id g)

  abbrev pub rotation_steps : Group → List Step
  rotation_steps g = if rotates g then group_steps g (osdpl.new_rotation_id g) else []

  -- One service after the other, in the order of upgrades.
  abbrev pub upgrade_steps : List Step
  upgrade_steps =
      suspend_descheduler
      ∷ (all_steps (λ s. set_service_waiting s ∷ [])
            (distinct (to_upgrade osdpl ++ services_to_apply osdpl))
          ++ all_steps (λ s. start_tasks (task Action.upgrade s ∷ []) ∷ []) (to_upgrade osdpl))

  abbrev pub is_upgrade : Bool
  is_upgrade = any (λ c. is_field c.field ("spec" ∷ "openstack_version" ∷ [])) osdpl.diff

  abbrev pub service_steps : List Step
  service_steps =
      (all_steps rotation_steps (admin ∷ service ∷ [])
        ++ (if is_upgrade then upgrade_steps else []))
      ++ start_tasks (
          map (task Action.apply) (services_to_apply osdpl)
          ++ map (task Action.delete) (services_to_delete osdpl))
        ∷ []

  abbrev pub cache_steps : List Step
  cache_steps = if env.images_cached then [] else cache_restart ∷ []

  abbrev pub is_refused : Bool
  is_refused = refuses osdpl.old_restore osdpl.new_restore osdpl.reason

  abbrev pub checked_steps : List Step
  checked_steps =
      ensure_admin_secret
      ∷ (cache_steps
          ++ cache_wait_ready
            ∷ (service_steps ++ set_osdpl_status Status.applied ∷ cleanup_helm_cache ∷ []))

  abbrev pub handle_steps : List Step
  handle_steps =
      if osdpl.draft
      then []
      else set_osdpl_status Status.applying
        ∷ cwl_present
        ∷ (if is_refused then [] else checked_steps)
