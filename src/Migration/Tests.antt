-- ===== src/Migration/Tests.antt =====
-- Runs of a workflow, of which one stage fails at first.
use openstack_controller.Migration.Resume.{IsCompleted, do_migration-finished, do_migration-again}
use openstack_controller.Migration.Executed.{do_migration-executed}
use openstack_controller.Migration.Stages.{
  migrate, create, Run, do_migration, is_completed, Status, Outcome, update, execute, run_stage,
  failed_nodes, check_nodes_results,
}
use openstack_controller.Common.{
  ◌==◌, All, Dict, lookup, String, ◌≡◌, refl, true, false, not, List, [], ◌∷◌, nat_eq, string_eq,
}

abbrev workflow : List String
workflow = "10_PREPARE" ∷ "20_DEPLOY_OVN_DB" ∷ "30_DEPLOY_OVN_CONTROLLERS" ∷ []

abbrev good_run : Run
good_run = record { interactive = false; succeeds = λ s. true; proceeds = λ s. true }

abbrev bad_run : Run
bad_run = record {
  interactive = false;
  succeeds = λ s. not (s == "20_DEPLOY_OVN_DB");
  proceeds = λ s. true;
}

abbrev half_done : Dict Status
half_done =
    ("10_PREPARE", Status.completed)
    ∷ ("20_DEPLOY_OVN_DB", Status.failed)
    ∷ ("30_DEPLOY_OVN_CONTROLLERS", Status.init)
    ∷ []

program : Unit {0}
unfolding create update execute run_stage migrate do_migration failed_nodes check_nodes_results
program = tt

do_migration-finished_example :
    All (IsCompleted (do_migration good_run workflow half_done).1) workflow
unfolding program
do_migration-finished_example = do_migration-finished good_run workflow half_done refl refl

do_migration-again_example :
    do_migration bad_run workflow (do_migration good_run workflow half_done).1.stages ≡ (
      Outcome.finished,
      record { stages = (do_migration good_run workflow half_done).1.stages; executed = [] },
    )
unfolding program
do_migration-again_example = do_migration-again good_run bad_run workflow half_done refl refl refl

do_migration-executed_example :
    All
      (λ s. is_completed (lookup s half_done) ≡ false)
      (do_migration bad_run workflow half_done).1.executed
do_migration-executed_example = do_migration-executed bad_run workflow half_done

fails_first : (do_migration bad_run workflow (create workflow)).0 ≡ Outcome.raised
unfolding program
fails_first = refl
