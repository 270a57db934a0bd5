-- ===== src/Services/Total.antt =====
-- Applying, upgrading and deleting a service come to an end.
use openstack_controller.Common.{
  if◌then◌else◌, Dict, ℕ, ◌<◌, String, ◌≡◌, refl, sym, subst, Bool, true, false, Option, none, some,
  List, [], ◌∷◌,
}
use openstack_controller.Services.World.{
  World, Result, ok, raised, temporary, timed_out, immutable_field_change, helm_rollback, other,
  still_retrying, pure,
}
use openstack_controller.Services.Helm.{
  Program, Command, Reply, attempt, classify, raise_failure, communicate, guess_and_delete,
  rollback_release, run_cmd, delete, install, install_bundle, delete_bundle, list_names,
  delete_not_active_releases, get_release_values,
}
use openstack_controller.Services.Base.{
  Service, Resource, Release, map_releases, or_key_error, is_image_changed, is_any_changed,
  is_to_cleanup, to_cleanup, purge, cleanup_immutable_resources, render, apply, upgrade,
  try_upgrade, wait_service_healthy, run_upgrade_hook, or_temporary, set_children_status,
  delete_service, exists, object_of,
}
use openstack_controller.Services.Ends.{
  is_ended, Ends, Ends-pure, Ends-raise, Ends-bind, Ends-if, Ends-each, Ends-gather,
}
use openstack_controller.Services.Objects.{guess_and_delete-answer}
use openstack_controller.Services.Retried.{run_cmd-EndsBy, wants_retry, reply_at}

-- Every command gets, within the attempts that the retries are followed for, a reply for which there is
-- no other attempt.
abbrev pub IsFollowed : Program → Type 0
IsFollowed helm =
    (command : Command) (raise_on_error : Bool) (release : Option String) (w : World)
    → (n : ℕ) × (wants_retry helm command raise_on_error release
          (reply_at helm command raise_on_error release n w)
        ≡ false)
      × (n < helm.attempts)

-- What is given of the service ends.
pub record IsAnswering (self : Service) : Type 0 where
  pub renders : (w : World) → is_ended (self.render w) ≡ true
  pub waits : (w : World) → is_ended (self.healthy w) ≡ true
  pub hooks : (w : World) → is_ended (self.upgrade_hook w) ≡ true

module _ (helm : Program) (followed : IsFollowed helm) where
  Ends-communicate : (command : Command) → Ends (communicate helm command)
  unfolding communicate
  Ends-communicate command = record {
    at = λ w.
        split (helm.run w.calls command w.releases).0.timeout
          (helm.run w.calls command w.releases).0;
  }
    where
      split :
          (b : Bool) (reply : Reply) → is_ended (if b then raised timed_out else ok reply) ≡ true
      split true reply = refl
      split false reply = refl

  Ends-guess_and_delete : (matches : List (String × String)) → Ends (guess_and_delete helm matches)
  Ends-guess_and_delete matches = record {
    at = λ w.
        subst (λ r. is_ended r ≡ true) (sym (guess_and_delete-answer helm matches w)) (split _);
  }
    where
      split : (b : Bool) → is_ended {A = Unit {0}} (if b then raised temporary else ok tt) ≡ true
      split true = refl
      split false = refl

  Ends-raise_failure :
      (release : Option String) (reply : Reply) → Ends (raise_failure helm release reply)
  unfolding raise_failure
  Ends-raise_failure none reply =
      Ends-if _ (Ends-bind (Ends-guess_and_delete reply.matches) (λ t. Ends-raise _ refl))
        (Ends-raise _ refl)
  Ends-raise_failure (some name) reply =
      Ends-if _ (Ends-bind (Ends-guess_and_delete reply.matches) (λ t. Ends-raise _ refl)) (
        Ends-if _ (Ends-bind (Ends-communicate (rollback_release name)) (λ r. Ends-raise _ refl))
          (Ends-raise _ refl))

  Ends-attempt :
      (command : Command) (raise_on_error : Bool) (release : Option String)
      → Ends (attempt helm command raise_on_error release)
  unfolding attempt classify
  Ends-attempt command raise_on_error release =
      Ends-bind (Ends-communicate command)
        (λ reply. Ends-if _ (Ends-raise_failure release reply) (Ends-pure reply))

  Ends-run_cmd :
      (command : Command) (raise_on_error : Bool) (release : Option String)
      → Ends (run_cmd helm command raise_on_error release)
  Ends-run_cmd command raise_on_error release = record {
    at = λ w.
        let (n, final, less) = followed command raise_on_error release w in
        let (k, le, same, ends, before) =
          run_cmd-EndsBy helm command raise_on_error release n w final less in
        subst (λ (r : Result Reply × World). is_ended r.0 ≡ true) (sym same)
          ((Ends-attempt command raise_on_error release).at _);
  }

  Ends-delete : (name : String) → Ends (delete helm name)
  unfolding delete
  Ends-delete name =
      Ends-bind (Ends-run_cmd _ _ _) (λ r. Ends-if _ (Ends-raise _ refl) (Ends-pure tt))

  Ends-list_names : Ends (list_names helm)
  unfolding list_names
  Ends-list_names = Ends-bind (Ends-run_cmd _ _ _) (λ r. record { at = λ w. refl })

  Ends-install_bundle : (releases : List (String × String)) → Ends (install_bundle helm releases)
  unfolding install_bundle install
  Ends-install_bundle releases =
      Ends-each (install helm) releases (λ r. Ends-bind (Ends-run_cmd _ _ _) (λ s. Ends-pure tt))

  abbrev purged : (a b : Bool) → World → World → Result (Unit {0}) × World
  purged a b w v = if a then (if b then (ok tt, v) else (raised timed_out, w)) else (ok tt, w)

  module _ (self : Service) where
    Ends-map_releases :
        (installed : List String) (releases : List Release)
        → Ends (map_releases helm self installed releases)
    unfolding map_releases get_release_values
    Ends-map_releases installed [] = Ends-pure _
    Ends-map_releases installed (release ∷ releases) =
        Ends-if _
          (Ends-bind (Ends-bind (Ends-run_cmd _ _ _) (λ r. record { at = λ w. refl }))
            (λ old. Ends-bind (Ends-map_releases installed releases) (λ rest. Ends-pure _)))
          (Ends-pure _)

    Ends-or_key_error : {A : Type 0} (o : Option A) → Ends (or_key_error o)
    Ends-or_key_error none = Ends-raise _ refl
    Ends-or_key_error (some a) = Ends-pure a

    Ends-is_image_changed :
        (both : Option String × Option String) (image : String)
        → Ends (is_image_changed helm self both image)
    unfolding is_image_changed
    Ends-is_image_changed both image = Ends-if _ (Ends-pure _) (
        Ends-bind (Ends-or_key_error _) (λ a.
          Ends-bind (Ends-or_key_error _)
            (λ b. Ends-bind (Ends-or_key_error _) (λ c. Ends-pure _))))

    Ends-is_any_changed :
        (both : Option String × Option String) (images : List String)
        → Ends (is_any_changed helm self both images)
    unfolding is_any_changed
    Ends-is_any_changed both [] = Ends-pure _
    Ends-is_any_changed both (image ∷ images) =
        Ends-bind (Ends-is_image_changed both image)
          (λ changed. found changed (Ends-is_any_changed both images))
      where
        found :
            (b : Bool)
            → Ends (is_any_changed helm self both images)
            → Ends (elim b [ true ↦ pure true | false ↦ is_any_changed helm self both images ])
        found true later = Ends-pure _
        found false later = later

    Ends-to_cleanup :
        (mapping : Dict (Option String × Option String)) (resources : List Resource)
        → Ends (to_cleanup helm self mapping resources)
    unfolding to_cleanup is_to_cleanup
    Ends-to_cleanup mapping [] = Ends-pure _
    Ends-to_cleanup mapping (resource ∷ resources) =
        Ends-bind
          (Ends-bind (record { at = λ w. refl })
            (λ is_there. Ends-if _ (Ends-pure _) (
              Ends-bind (Ends-if _ (Ends-is_any_changed _ _) (Ends-pure _))
                (λ changed. Ends-pure _))))
          (λ chosen. Ends-bind (Ends-to_cleanup mapping resources) (λ rest. Ends-pure _))

    Ends-purge : (resource : Resource) → Ends (purge helm self resource)
    unfolding purge
    Ends-purge resource = record {
      at = λ w. split (exists resource w) (helm.is_gone (object_of resource)) w _;
    }
      where
        split : (a b : Bool) (w v : World) → is_ended (purged a b w v).0 ≡ true
        split true true w v = refl
        split true false w v = refl
        split false b w v = refl

    Ends-cleanup : (releases : List Release) → Ends (cleanup_immutable_resources helm self releases)
    unfolding cleanup_immutable_resources
    Ends-cleanup releases = Ends-bind Ends-list_names (λ installed.
        Ends-bind (Ends-map_releases installed releases) (λ mapping.
          Ends-bind (Ends-to_cleanup mapping self.child_objects)
            (λ chosen. Ends-gather (purge helm self) chosen Ends-purge)))

  module _ (self : Service) (answering : IsAnswering self) where
    Ends-apply : Ends (apply helm self)
    unfolding apply set_children_status render delete_not_active_releases
    Ends-apply =
        Ends-bind {A = Unit {0}} (record { at = λ w. refl })
          (λ t.
            Ends-bind (record { at = answering.renders })
              (λ releases. Ends-bind (Ends-each _ releases (λ r. Ends-cleanup self releases)) (λ t.
                Ends-bind (Ends-install_bundle _)
                  (λ t. Ends-bind (Ends-each _ _ Ends-delete) (λ t. record { at = λ w. refl })))))

    Ends-upgrade : Ends (upgrade helm self)
    unfolding upgrade try_upgrade wait_service_healthy run_upgrade_hook set_children_status
    Ends-upgrade =
        Ends-bind {A = Unit {0}} (record { at = λ w. refl })
          (λ t.
            Ends-bind (record { at = λ w. passed (try_upgrade helm self w) (tried.at w) })
              (λ t. record { at = λ w. refl }))
      where
        tried : Ends (try_upgrade helm self)
        tried =
            Ends-bind (record { at = answering.waits })
              (λ t.
                Ends-bind (record { at = answering.hooks })
                  (λ t. Ends-bind Ends-apply (λ t. record { at = answering.waits })))

        passed :
            (r : Result (Unit {0}) × World)
            → is_ended r.0 ≡ true
            → is_ended (or_temporary r).0 ≡ true
        passed (ok a, w) h = refl
        passed (raised temporary, w) h = refl
        passed (raised immutable_field_change, w) h = refl
        passed (raised helm_rollback, w) h = refl
        passed (raised timed_out, w) h = refl
        passed (raised other, w) h = refl
        passed (raised still_retrying, w) h = cc

    Ends-delete_service : Ends (delete_service helm self)
    unfolding delete_service delete_bundle set_children_status
    Ends-delete_service =
        Ends-bind {A = Unit {0}} (record { at = λ w. refl })
          (λ t.
            Ends-bind (Ends-bind Ends-list_names (λ current. Ends-each _ _ Ends-delete))
              (λ t. record { at = λ w. refl }))

    -- Applying a service, upgrading it and deleting it come to an end, with an answer or with an error that
    -- the code raises, from any state of the cluster, where every command of helm gets within the attempts a
    -- reply for which there is no other attempt, and where rendering, the wait for healthy services and the
    -- hook of upgrades end.
    pub service-Ends :
        Ends (apply helm self) × Ends (upgrade helm self) × Ends (delete_service helm self)
    service-Ends = (Ends-apply, Ends-upgrade, Ends-delete_service)
