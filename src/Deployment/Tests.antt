-- ===== src/Deployment/Tests.antt =====
-- A deployment of three services whose version changes.
use openstack_controller.Deployment.Plan.{handle-Progress}
use openstack_controller.Deployment.Outline.{handle_steps, is_refused}
use openstack_controller.Deployment.Named.{is_removed, last_of_services}
use openstack_controller.Deployment.Rounds.{run_task-outcomes, outcome}
use openstack_controller.Deployment.Follows.{Progress}
use openstack_controller.Deployment.Succeeds.{Succeeded, but_latest, handle-applied}
use openstack_controller.Deployment.Handle.{
  upgrade_services, rotate_service_secret, get_os_services_for_upgrade, handle, Deployment, Reason,
  distinct, difference, is_openstack_version_changed, services_to_apply, services_to_delete,
  check_handling_allowed, rotate_group, rotate_if_changed, rotate_credentials, handle_services,
  bring_about,
}
use openstack_controller.Deployment.Steps.{
  run_tasks, Environment, Answer, done, cleanup_helm_cache, ◌>>◌, each, step,
}
use openstack_controller.Deployment.Tasks.{run_task, retried, Task, Action, fails, Ending, rounds}
use openstack_controller.Common.{
  String, not, contains, AreDistinct, ◌≢◌, ◌⊎◌, leb, ◌==◌, if◌then◌else◌, ℕ, ◌≡◌, refl, true, false,
  ◌&&◌, some, List, [], ◌∷◌, nat_eq, string_eq,
}

-- The image service is there in the second round only.
abbrev ending_of : ℕ → Task → Ending
ending_of round t =
    if t.service == "image" && leb round 0 then Ending.other_error else Ending.returned

abbrev quiet : Environment
quiet = record {
  answer = λ trace s. Answer.done;
  ending = λ trace. ending_of;
  fuel = 3;
  images_cached = true;
  has_secret = λ s. true;
}

abbrev upgraded : Deployment
upgraded = record {
  draft = false;
  services = "compute" ∷ "image" ∷ "identity" ∷ [];
  diff = record { field = "spec" ∷ "openstack_version" ∷ []; old = []; new = [] } ∷ [];
  reason = Reason.update;
  old_restore = false;
  new_restore = false;
  old_rotation_id = λ g. 0;
  new_rotation_id = λ g. 0;
}

abbrev two_tasks : List Task
two_tasks =
    record { action = Action.apply; service = "image" }
    ∷ record { action = Action.apply; service = "compute" }
    ∷ []

program : Unit {0}
unfolding retried fails rounds run_task outcome ◌>>◌ each step run_tasks distinct difference
    is_openstack_version_changed get_os_services_for_upgrade services_to_apply services_to_delete
    check_handling_allowed rotate_service_secret rotate_group rotate_if_changed rotate_credentials
    upgrade_services handle_services bring_about handle
program = tt

run_task-outcomes_example : run_task ending_of 2 two_tasks ≡ some false
unfolding program
run_task-outcomes_example = run_task-outcomes ending_of 2 two_tasks

handle-Progress_example :
    Progress
      (handle_steps quiet upgraded)
      []
      (handle quiet upgraded []).0
      (handle quiet upgraded []).1
    × (((not upgraded.draft && is_refused quiet upgraded) ≡ false)
        ⊎ ((handle quiet upgraded []).0 ≢ done))
    × AreDistinct (services_to_apply upgraded)
    × ((s : String) → contains (services_to_apply upgraded) s ≡ contains upgraded.services s)
    × ((s : String)
        → contains (services_to_delete upgraded) s ≡ is_removed (last_of_services upgraded.diff) s)
handle-Progress_example = handle-Progress quiet upgraded

handle-applied_example :
    Succeeded quiet (but_latest quiet (but_latest quiet (handle quiet upgraded []).1))
unfolding program
handle-applied_example =
    handle-applied quiet upgraded (but_latest quiet (but_latest quiet (handle quiet upgraded []).1))
      (cleanup_helm_cache ∷ []) refl

handle_returns : (handle quiet upgraded []).0 ≡ done
unfolding program
handle_returns = refl
