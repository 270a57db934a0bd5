-- ===== src/Deployment/Plan.antt =====
-- The deployment handlers follow their plan.
use openstack_controller.Common.{
  if◌then◌else◌, contains, AreDistinct, ◌≢◌, ◌⊎◌, inl, inr, refl, ℕ, String, ◌≡◌, ap, ◌∙◌, subst,
  Bool, true, false, not, ◌&&◌, List, [], ◌∷◌, ◌++◌, nat_eq, string_eq,
}
use openstack_controller.Deployment.Tasks.{Action}
use openstack_controller.Deployment.Steps.{
  Status, Step, set_osdpl_status, cwl_present, ensure_admin_secret, cache_wait_ready,
  suspend_descheduler, cleanup_helm_cache, set_service_waiting, start_tasks, Environment, permanent,
  Exec, pure, done, step, ◌>>◌,
}
use openstack_controller.Deployment.Handle.{
  create, resume, update, Group, admin, service, Deployment, is_openstack_version_changed, distinct,
  services_to_apply, services_to_delete, task, rotate_group, rotate_if_changed, handle,
  handle_services, upgrade_services, check_handling_allowed, rotate_service_secret,
  rotate_credentials, Reason, bring_about,
}
use openstack_controller.Deployment.Named.{
  contains-distinct, distinct-AreDistinct, last_of_services, is_removed,
  services_to_delete-is_removed, get_os_services_for_upgrade-to_upgrade,
}
use openstack_controller.Deployment.Follows.{
  Stops, Stops-raise, Stops-then, Follows-Stops, all_steps, append-append, Follows, Follows-if,
  Follows-then, Follows-step, Follows-pure, Follows-each, Follows-run_tasks, Progress,
}
use openstack_controller.Deployment.Outline.{
  refuses, secret_steps, group_steps, rotates, rotation_steps, upgrade_steps, is_upgrade,
  service_steps, cache_steps, is_refused, checked_steps, handle_steps,
}

allowed :
    (old new : Bool) (r : Reason)
    → refuses old new r ≡ false
    → Follows (check_handling_allowed old new r) []
unfolding check_handling_allowed
allowed old true create h = cc
allowed old false create h = Follows-pure
allowed old true resume h = cc
allowed old false resume h = Follows-pure
allowed true true update h = cc
allowed false true update h = Follows-pure
allowed old false update h = Follows-pure

refused :
    (old new : Bool) (r : Reason)
    → refuses old new r ≡ true
    → Stops (check_handling_allowed old new r) []
unfolding check_handling_allowed
refused old true create h = Stops-raise permanent
refused old false create h = cc
refused old true resume h = Stops-raise permanent
refused old false resume h = cc
refused true true update h = Stops-raise permanent
refused false true update h = cc
refused old false update h = cc

module _ (env : Environment) (osdpl : Deployment) where
  Follows-secret :
      (id : ℕ) (name : String)
      → Follows (rotate_service_secret env id name) (secret_steps env osdpl id name)
  unfolding rotate_service_secret
  Follows-secret id name = Follows-if (env.has_secret name) (Follows-step env _) Follows-pure

  Follows-group :
      (g : Group) (id : ℕ)
      → Follows (rotate_group env g id (services_to_apply osdpl)) (group_steps env osdpl g id)
  unfolding rotate_group
  Follows-group admin id =
      Follows-then (Follows-then (Follows-step env _) (Follows-run_tasks env _))
        (Follows-step env _)
  Follows-group service id =
      Follows-each (rotate_service_secret env id) (secret_steps env osdpl id)
        (services_to_apply osdpl) (Follows-secret id)

  Follows-rotate :
      (g : Group)
      → Follows
          (rotate_if_changed env osdpl (services_to_apply osdpl) g)
          (rotation_steps env osdpl g)
  unfolding rotate_if_changed
  Follows-rotate g = Follows-if (rotates env osdpl g) (Follows-group g _) Follows-pure

  Follows-upgrade :
      Follows (upgrade_services env (services_to_apply osdpl)) (upgrade_steps env osdpl)
  unfolding upgrade_services
  Follows-upgrade =
      subst (λ l. Follows (upgrade_services env (services_to_apply osdpl)) (steps_of l))
        (get_os_services_for_upgrade-to_upgrade osdpl)
        (Follows-then
          (Follows-then (Follows-step env _) (Follows-each _ _ _ (λ s. Follows-step env _)))
          (Follows-each _ _ _ (λ s. Follows-run_tasks env _)))
    where
      steps_of : List String → List Step
      steps_of l =
          suspend_descheduler
          ∷ (all_steps (λ s. set_service_waiting s ∷ []) (distinct (l ++ services_to_apply osdpl))
              ++ all_steps (λ s. start_tasks (task Action.upgrade s ∷ []) ∷ []) l)

  Follows-services : Follows (handle_services env osdpl) (service_steps env osdpl)
  unfolding handle_services rotate_credentials is_openstack_version_changed
  Follows-services =
      Follows-then
        (Follows-then (Follows-each _ _ _ Follows-rotate)
          (Follows-if (is_upgrade env osdpl) Follows-upgrade Follows-pure))
        (Follows-run_tasks env _)

  Follows-check :
      is_refused env osdpl ≡ false
      → Follows (check_handling_allowed osdpl.old_restore osdpl.new_restore osdpl.reason) []
  Follows-check h = allowed osdpl.old_restore osdpl.new_restore osdpl.reason h

  regroup :
      (a b : List Step) (w x y : Step)
      → (((a ++ w ∷ []) ++ b) ++ x ∷ []) ++ y ∷ [] ≡ a ++ w ∷ (b ++ x ∷ y ∷ [])
  regroup a b w x y =
      append-append ((a ++ w ∷ []) ++ b) (x ∷ []) (y ∷ [])
      ∙ append-append (a ++ w ∷ []) b (x ∷ y ∷ [])
      ∙ append-append a (w ∷ []) (b ++ x ∷ y ∷ [])

  abbrev whole : Exec
  whole =
      bring_about env osdpl
      >> step env (set_osdpl_status Status.applied)
      >> step env cleanup_helm_cache

  Follows-two :
      Follows
        (step env (set_osdpl_status Status.applying) >> step env cwl_present)
        (set_osdpl_status Status.applying ∷ cwl_present ∷ [])
  Follows-two = Follows-then (Follows-step env _) (Follows-step env _)

  Stops-whole :
      is_refused env osdpl ≡ true
      → Stops whole (set_osdpl_status Status.applying ∷ cwl_present ∷ [])
  unfolding bring_about
  Stops-whole h =
      let check = refused osdpl.old_restore osdpl.new_restore osdpl.reason h in
      Stops-then
        (Stops-then
          (Stops-then (Stops-then (Stops-then (Stops-then (Follows-Stops Follows-two check) _) _) _)
            _)
          _)
        _

  Follows-whole :
      is_refused env osdpl ≡ false
      → Follows whole (set_osdpl_status Status.applying ∷ cwl_present ∷ checked_steps env osdpl)
  unfolding bring_about
  Follows-whole h =
      subst (Follows _)
        (ap (λ l. set_osdpl_status Status.applying ∷ cwl_present ∷ ensure_admin_secret ∷ l)
          (regroup (cache_steps env osdpl) (service_steps env osdpl) cache_wait_ready
            (set_osdpl_status Status.applied) cleanup_helm_cache))
        (Follows-then
          (Follows-then
            (Follows-then
              (Follows-then
                (Follows-then
                  (Follows-then (Follows-then Follows-two (Follows-check h)) (Follows-step env _))
                  (Follows-if env.images_cached Follows-pure (Follows-step env _)))
                (Follows-step env _))
              Follows-services)
            (Follows-step env _))
          (Follows-step env _))

  Follows-handle : Follows (handle env osdpl) (handle_steps env osdpl)
  unfolding handle
  Follows-handle = Follows-if osdpl.draft Follows-pure (split (is_refused env osdpl) refl)
    where
      split :
          (b : Bool)
          → is_refused env osdpl ≡ b
          → Follows whole (
              set_osdpl_status Status.applying
              ∷ cwl_present
              ∷ (if b then [] else checked_steps env osdpl))
      split true h = (Stops-whole h).follows
      split false h = Follows-whole h

  handle-raises :
      ((not osdpl.draft && is_refused env osdpl) ≡ false) ⊎ ((handle env osdpl []).0 ≢ done)
  unfolding handle
  handle-raises = split osdpl.draft (is_refused env osdpl) refl
    where
      split :
          (a b : Bool)
          → is_refused env osdpl ≡ b
          → ((not a && b) ≡ false) ⊎ (((if a then pure else whole) []).0 ≢ done)
      split true b h = inl refl
      split false true h = inr ((Stops-whole h).raises [])
      split false false h = inl refl

-- Whatever fails, the steps that `_handle` takes are the first ones of its plan, and all of them where
-- it returns: a draft gets none; what is refused during a restore of the database stops behind the lock
-- of the cluster, and raises; else the credentials are rotated first, then, where the version changes, the
-- enabled services are upgraded one by one in the order of upgrades, then all of them are applied and the
-- removed ones deleted, and the status says applied only after that. The services to apply are the enabled
-- ones, each once; those to delete were in the list before its latest change and are not any more.
pub handle-Progress :
    (env : Environment) (osdpl : Deployment)
    → Progress (handle_steps env osdpl) [] (handle env osdpl []).0 (handle env osdpl []).1
      × (((not osdpl.draft && is_refused env osdpl) ≡ false) ⊎ ((handle env osdpl []).0 ≢ done))
      × AreDistinct (services_to_apply osdpl)
      × ((s : String) → contains (services_to_apply osdpl) s ≡ contains osdpl.services s)
      × ((s : String)
          → contains (services_to_delete osdpl) s ≡ is_removed (last_of_services osdpl.diff) s)
unfolding services_to_apply
handle-Progress env osdpl = (
  (Follows-handle env osdpl).at [],
  handle-raises env osdpl,
  distinct-AreDistinct osdpl.services,
  contains-distinct osdpl.services,
  services_to_delete-is_removed osdpl,
)
