-- ===== src/Services/Tests.antt =====
-- A service applied, upgraded and deleted on a small cluster.
use openstack_controller.Services.Samples.{helm, helm-IsHelm, helm-IsFollowed}
use openstack_controller.Services.Attempts.{times, limit}
use openstack_controller.Services.Cleared.{AllClear, migrate_servers-times}
use openstack_controller.Services.Migrate.{
  start_migration, Compute, live, skip, migrated, migrate_servers, do_servers_migration,
  migrate_one, next_round, check_migration_completed,
}
use openstack_controller.Services.Progress.{lcm_progress, is_current, lcm_progress-count}
use openstack_controller.Services.Total.{service-Ends, IsAnswering}
use openstack_controller.Services.Ends.{Ends}
use openstack_controller.Services.Applied.{IsDeployed, apply-IsDeployed}
use openstack_controller.Services.Status.{
  upgrade-status, IsGone, HasStatus, IsUpgrading, apply-status, delete_service-status, IsRetryable,
  status_of,
}
use openstack_controller.Common.{
  ◌==◌, count, all, Dict, values, ℕ, zero, suc, ◌≤◌, String, ◌≡◌, refl, ◌≢◌, ◌↔◌, true, false,
  Option, none, some, List, [], ◌∷◌, nat_eq, string_eq,
}
use openstack_controller.Services.World.{
  ◌>>=◌, each, gather, World, ok, raised, temporary, state_applying, state_applied, state_deleting,
  ServiceStatus,
}
use openstack_controller.Services.Helm.{
  guess_and_delete, delete_match, attempt, communicate, classify, install_bundle, run_cmd,
  list_names, delete_not_active_releases, retry, get_release_values, delete_object, install, delete,
}
use openstack_controller.Services.Base.{
  purge, is_any_changed, map_releases, render, Service, Resource, Release, apply,
  set_children_status, set_service_status, cleanup_immutable_resources, delete_service, upgrade,
  to_cleanup, is_to_cleanup, is_image_changed, is_child_object_hash_changed, values_of,
}
use openstack_controller.Services.Triple.{Outcome, Always}

abbrev job : Resource
job = record {
  kind = "Job";
  resource_name = "nova-db-sync";
  resource_chart = "nova";
  immutable = true;
  has_hash_fields = false;
  images = "nova_db_sync" ∷ [];
}

abbrev rendered : List Release
rendered = record { name = "openstack-nova"; chart = "nova"; release_values = "new" } ∷ []

abbrev image_of : Option String → String
image_of none = ""
image_of (some given) = given

abbrev nova : Service
nova = record {
  service = "compute";
  available_releases = "openstack-nova" ∷ "openstack-placement" ∷ [];
  child_objects = job ∷ [];
  fingerprint = "f";
  controller_version = "v";
  render = λ w. ok rendered;
  healthy = λ w. ok tt;
  upgrade_hook = λ w. ok tt;
  hash = λ resource given. "";
  stored_hash = λ resource given. none;
  is_empty = λ given. given == "";
  tags = λ given. some (("nova_db_sync", image_of given) ∷ []);
}

abbrev world : World
world = record {
  objects = ("Job", "nova-db-sync") ∷ ("PersistentVolume", "data") ∷ [];
  releases = ("openstack-nova", "old") ∷ ("openstack-placement", "old") ∷ ("other", "x") ∷ [];
  services = [];
  calls = 0;
}

-- The job's image has changed: it is removed, the release is upgraded and the other one is gone.
nova-applied : apply helm nova world ≡ (
  ok tt,
  record {
    objects = ("PersistentVolume", "data") ∷ [];
    releases = ("openstack-nova", "new") ∷ ("other", "x") ∷ [];
    services = ("compute", status_of helm nova state_applied) ∷ [];
    calls = 4;
  },
)
unfolding apply set_children_status set_service_status render cleanup_immutable_resources list_names
    run_cmd retry attempt communicate classify map_releases get_release_values to_cleanup
    is_to_cleanup is_any_changed is_image_changed is_child_object_hash_changed values_of purge
    delete_object install_bundle install delete_not_active_releases delete each gather ◌>>=◌
nova-applied = refl

apply-status_example :
    Outcome
      (HasStatus helm nova state_applied)
      (HasStatus helm nova state_applying)
      (apply helm nova world)
apply-status_example = apply-status helm nova world

upgrade-status_example :
    Outcome (HasStatus helm nova state_applied) (IsUpgrading helm nova) (upgrade helm nova world)
    × IsRetryable helm nova (upgrade helm nova world).0
upgrade-status_example = upgrade-status helm nova world

delete_service-status_example :
    Outcome (IsGone helm nova) (HasStatus helm nova state_deleting) (delete_service helm nova world)
delete_service-status_example = delete_service-status helm nova world

apply-IsDeployed_example :
    Outcome
      (IsDeployed helm helm-IsHelm (("openstack-nova", "new") ∷ []) nova.available_releases)
      Always
      (apply helm nova world)
apply-IsDeployed_example = apply-IsDeployed helm helm-IsHelm nova world rendered refl (refl, tt)

abbrev matched : List (String × String)
matched = ("Job", "nova-db-sync") ∷ ("PersistentVolume", "data") ∷ ("Job", "other") ∷ []

-- The job is deleted and the volume is not.
matched-deleted :
    guess_and_delete helm matched world
    ≡ (raised temporary, record world { objects = ("PersistentVolume", "data") ∷ [] })
unfolding guess_and_delete delete_match delete_object each ◌>>=◌
matched-deleted = refl

nova-IsAnswering : IsAnswering nova
nova-IsAnswering = record { renders = λ w. refl; waits = λ w. refl; hooks = λ w. refl }

service-Ends_example :
    Ends (apply helm nova) × Ends (upgrade helm nova) × Ends (delete_service helm nova)
service-Ends_example = service-Ends helm helm-IsFollowed nova nova-IsAnswering

abbrev current : ServiceStatus
current = record { state = state_applied; fingerprint = "f"; controller_version = "v" }

abbrev running : Dict ServiceStatus
running =
    ("compute", current)
    ∷ ("identity", record current { state = state_applying })
    ∷ ("image", record current { fingerprint = "old" })
    ∷ []

running-lcm_progress : lcm_progress "f" "v" running ≡ (1, 3)
unfolding lcm_progress
running-lcm_progress = refl

lcm_progress-count_example :
    ((lcm_progress "f" "v" running).0 ≡ count (is_current "f" "v") (values running))
    × (((lcm_progress "f" "v" running).0 ≡ (lcm_progress "f" "v" running).1)
        ↔ (all (is_current "f" "v") (values running) ≡ true))
lcm_progress-count_example = lcm_progress-count "f" "v" running

abbrev listed : ℕ → List String
listed zero = "a" ∷ "b" ∷ []
listed (suc zero) = "a" ∷ []
listed (suc (suc n)) = "a" ∷ []

abbrev host : Compute
host = record {
  valid_for_live_migration = listed;
  in_migrating_state = λ n. [];
  shuffle = λ n l. l;
  all_servers = record { is_safe_state = false; is_stopped = true } ∷ [];
  attempts = 3;
  concurrency = 1;
  rounds = 10;
}

-- The server b leaves, a has its three attempts.
host-migrate_servers : migrate_servers host live ≡ (migrated, "a" ∷ "a" ∷ "a" ∷ "b" ∷ [])
unfolding migrate_servers do_servers_migration migrate_one start_migration next_round
    check_migration_completed
host-migrate_servers = refl

live-ne-skip : live ≢ skip
live-ne-skip = λ e. cc

migrate_servers-times_example :
    (times "a" (migrate_servers host live).1 ≤ limit 3)
    × AllClear host (λ P n l h. h) (migrate_servers host live).0
migrate_servers-times_example = migrate_servers-times host (λ P n l h. h) live "a" live-ne-skip
