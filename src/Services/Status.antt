-- ===== src/Services/Status.antt =====
-- The status of a service after it is applied, upgraded or deleted.
use openstack_controller.Services.Cleanup.{Keeps-cleanup_immutable_resources}
use openstack_controller.Common.{
  eq_refl, if◌then◌else◌, lookup, lookup-insert, lookup-remove, String, ◌≡◌, refl, ap, ◌∙◌, ◌⊎◌,
  inl, inr, none, some, arith, nat_eq, string_eq,
}
use openstack_controller.Services.World.{
  continue, ◌>>=◌, Method, World, Result, ok, raised, Error, State, ServiceStatus, state_applying,
  state_applied, state_deleting, temporary, still_retrying, Method,
}
use openstack_controller.Services.Helm.{Program, Command, delete_match, communicate, delete_object}
use openstack_controller.Services.Base.{
  Service, Resource, apply, set_service_status, purge, set_children_status, render, delete_service,
  try_upgrade, upgrade, wait_service_healthy, or_temporary, remove_service_status, run_upgrade_hook,
  phase_applied,
}
use openstack_controller.Services.Keeps.{
  Preorder, Keeps, Keeps-answer, Keeps-each, Keeps-install_bundle, Keeps-delete_not_active_releases,
  Keeps-delete_bundle,
}
use openstack_controller.Services.Triple.{
  Always, Outcome-weaken, Triple-bind, Triple, Triple-invariant, Outcome,
}

-- The statuses are the same.
abbrev same_statuses : Preorder
same_statuses = record {
  Related = λ w v. v.services ≡ w.services;
  reflexive = λ w. refl;
  transitive = λ p q. q ∙ p;
}

module _ (helm : Program) (self : Service) where
  deletes : (o : String × String) → Keeps same_statuses (delete_match helm o)
  unfolding delete_match delete_object
  deletes o = record { at = λ w. ground arith }

  calls : (command : Command) → Keeps same_statuses (communicate helm command)
  unfolding communicate
  calls command = record { at = λ w. refl }

  purges : (r : Resource) → Keeps same_statuses (purge helm self r)
  unfolding purge delete_object
  purges r = record { at = λ w. ground arith }

  -- The status of the service, of this version and this spec.
  abbrev pub status_of : State → ServiceStatus
  status_of state = record {
    state = state;
    fingerprint = self.fingerprint;
    controller_version = self.controller_version;
  }

  abbrev pub HasStatus : State → World → Type 0
  HasStatus state world = lookup self.service world.services ≡ some (status_of state)

  abbrev pub IsGone : World → Type 0
  IsGone world = lookup self.service world.services ≡ none

  Triple-keeps {ℓ} :
      {A : Type ℓ} {m : Method A} (state : State)
      → Keeps same_statuses m
      → Triple (HasStatus state) (HasStatus state) (HasStatus state) m
  Triple-keeps state keeps = Triple-invariant (λ w h. ap (lookup self.service) (keeps.at w) ∙ h)

  set_service_status-HasStatus :
      (state : State) (w : World) → HasStatus state (set_service_status helm self state w)
  unfolding set_service_status
  set_service_status-HasStatus state w =
      lookup-insert self.service self.service (status_of state) w.services
      ∙ ap (λ b. if b then some (status_of state) else lookup self.service w.services)
          (eq_refl self.service)

  apply-Triple :
      Triple Always (HasStatus state_applied) (HasStatus state_applying) (apply helm self)
  unfolding apply set_children_status render
  apply-Triple =
      Triple-bind {M = HasStatus state_applying}
        (record { at = λ w h. set_service_status-HasStatus state_applying w })
        (λ t.
          Triple-bind {M = HasStatus state_applying}
            (Triple-keeps state_applying (Keeps-answer same_statuses _))
            (λ releases.
              Triple-bind {M = HasStatus state_applying}
                (Triple-keeps state_applying (
                  Keeps-each same_statuses _ releases (λ r.
                    Keeps-cleanup_immutable_resources same_statuses helm self deletes calls releases
                      purges)))
                (λ t.
                  Triple-bind {M = HasStatus state_applying}
                    (Triple-keeps state_applying
                      (Keeps-install_bundle same_statuses helm deletes calls _))
                    (λ t.
                      Triple-bind {M = HasStatus state_applying}
                        (Triple-keeps state_applying
                          (Keeps-delete_not_active_releases same_statuses helm deletes calls _ _))
                        (λ t. record {
                          at = λ w h. set_service_status-HasStatus state_applied w;
                        })))))

  -- A service that is applied has the status APPLIED of this spec and version, where the call returns,
  -- and APPLYING where it raises, whatever the steps in between do.
  pub apply-status :
      (w : World) → Outcome (HasStatus state_applied) (HasStatus state_applying) (apply helm self w)
  apply-status w = apply-Triple.at w tt

  -- The status while an upgrade runs and after it: it is never left without one.
  abbrev pub IsUpgrading : World → Type 0
  IsUpgrading w = HasStatus state_applying w ⊎ HasStatus state_applied w

  keeps_upgrading :
      {m : Method (Unit {0})} → Keeps same_statuses m → Triple IsUpgrading IsUpgrading IsUpgrading m
  keeps_upgrading {m} keeps = Triple-invariant (λ w h. elim h [
    | inl e ↦ inl (ap (lookup self.service) (keeps.at w) ∙ e)
    | inr e ↦ inr (ap (lookup self.service) (keeps.at w) ∙ e)
  ])

  try_upgrade-Triple : Triple IsUpgrading IsUpgrading IsUpgrading (try_upgrade helm self)
  unfolding try_upgrade wait_service_healthy run_upgrade_hook
  try_upgrade-Triple =
      Triple-bind {M = IsUpgrading} (keeps_upgrading (Keeps-answer same_statuses _)) (λ t.
        Triple-bind {M = IsUpgrading} (keeps_upgrading (Keeps-answer same_statuses _)) (λ t.
          Triple-bind {M = IsUpgrading}
            (record {
              at = λ w h.
                  Outcome-weaken (apply helm self w) (λ v e. inr e) (λ v e. inl e)
                    (apply-Triple.at w tt);
            })
            (λ t. keeps_upgrading (Keeps-answer same_statuses _))))

  or_temporary-Outcome :
      (r : Result (Unit {0}) × World)
      → Outcome IsUpgrading IsUpgrading r
      → Outcome IsUpgrading IsUpgrading (or_temporary r)
  or_temporary-Outcome (ok a, w) h = h
  or_temporary-Outcome (raised temporary, w) h = h
  or_temporary-Outcome (raised Error.immutable_field_change, w) h = h
  or_temporary-Outcome (raised Error.helm_rollback, w) h = h
  or_temporary-Outcome (raised Error.timed_out, w) h = h
  or_temporary-Outcome (raised Error.other, w) h = h
  or_temporary-Outcome (raised still_retrying, w) h = h

  upgraded : (w : World) → Outcome (HasStatus state_applied) IsUpgrading (upgrade helm self w)
  unfolding upgrade set_children_status
  upgraded w =
      (Triple-bind {M = λ v. IsUpgrading v} {H = Always}
          (record { at = λ v h. inl (set_service_status-HasStatus state_applying v) })
          (λ t.
            Triple-bind {M = IsUpgrading}
              (record {
                at = λ v h.
                    or_temporary-Outcome (try_upgrade helm self v) (try_upgrade-Triple.at v h);
              })
              (λ t. record { at = λ v h. set_service_status-HasStatus state_applied v }))).at
        w tt

  -- What an upgrade raises.
  abbrev pub IsRetryable : Result (Unit {0}) → Type 0
  IsRetryable (ok a) = Unit
  IsRetryable (raised e) = (e ≡ temporary) ⊎ (e ≡ still_retrying)

  upgrade-IsRetryable :
      (r : Result (Unit {0}) × World)
      → IsRetryable
          (continue
            (λ t. set_children_status helm self phase_applied)
            (or_temporary r).0
            (or_temporary r).1).0
  unfolding set_children_status
  upgrade-IsRetryable (ok a, w) = tt
  upgrade-IsRetryable (raised temporary, w) = inl refl
  upgrade-IsRetryable (raised Error.immutable_field_change, w) = inl refl
  upgrade-IsRetryable (raised Error.helm_rollback, w) = inl refl
  upgrade-IsRetryable (raised Error.timed_out, w) = inl refl
  upgrade-IsRetryable (raised Error.other, w) = inl refl
  upgrade-IsRetryable (raised still_retrying, w) = inr refl

  -- An upgrade that returns leaves the status APPLIED of this spec and version. One that raises leaves
  -- that status or APPLYING, and raises nothing but a TemporaryError, whatever went wrong, unless the
  -- attempts at a command of helm are used up.
  pub upgrade-status :
      (w : World)
      → Outcome (HasStatus state_applied) IsUpgrading (upgrade helm self w)
        × IsRetryable (upgrade helm self w).0
  unfolding upgrade ◌>>=◌ set_children_status
  upgrade-status w = (
    upgraded w,
    upgrade-IsRetryable (try_upgrade helm self (set_service_status helm self state_applying w)),
  )

  -- A service that is deleted has no status where the call returns, and DELETING where it raises.
  pub delete_service-status :
      (w : World) → Outcome IsGone (HasStatus state_deleting) (delete_service helm self w)
  unfolding delete_service set_children_status remove_service_status
  delete_service-status w =
      (Triple-bind {M = HasStatus state_deleting} {H = Always}
          (record { at = λ v h. set_service_status-HasStatus state_deleting v })
          (λ t.
            Triple-bind {M = HasStatus state_deleting}
              (Triple-keeps state_deleting (Keeps-delete_bundle same_statuses helm deletes calls _))
              (λ t. record {
                at = λ v h.
                    lookup-remove self.service self.service v.services
                    ∙ ap (λ b. if b then none else lookup self.service v.services)
                        (eq_refl self.service);
              }))).at
        w tt
