-- ===== src/Deployment/Steps.antt =====
-- The steps of the deployment handlers, and methods that take them: a step is recorded, then it
-- succeeds or raises. What each step does to the cluster is not modelled.
use openstack_controller.Common.{ℕ, String, Bool, true, false, Option, none, some, List, [], ◌∷◌}
use openstack_controller.Deployment.Tasks.{Task, Ending, run_task}

-- `osdplstatus.APPLYING`, `osdplstatus.APPLIED`
pub data Status : Type 0 where
  applying applied : Status

pub data Step : Type 0 where
  set_osdpl_status : Status → Step
  cwl_present cwl_absent ensure_admin_secret cache_restart cache_wait_ready : Step
  rotate_admin : ℕ → Step
  rotate_service : String → ℕ → Step
  wait_database_healthy suspend_descheduler cleanup_helm_cache : Step
  set_service_waiting : String → Step
  start_tasks : List Task → Step

pub data Error : Type 0 where
  permanent other still_running : Error

pub data Answer : Type 0 where
  done : Answer
  raised : Error → Answer

-- The steps so far, the latest first.
abbrev pub Trace : Type 0
Trace = List Step

-- What the handlers meet: how steps and coroutines end, which may depend on what was done before, and
-- for how many rounds the loop of `run_task` is followed.
pub record Environment : Type 0 where
  pub answer : Trace → Step → Answer
  pub ending : Trace → ℕ → Task → Ending
  pub fuel : ℕ
  -- whether `cache.images` are the images of the deployment
  pub images_cached : Bool
  -- whether the service has a `service_secret`
  pub has_secret : String → Bool

-- A method of the handler: an error, or nothing, with the steps taken.
abbrev pub Exec : Type 0
Exec = Trace → Answer × Trace

abbrev pub pure : Exec
pure trace = (done, trace)

abbrev pub raise : Error → Exec
raise e trace = (raised e, trace)

abbrev pub continue : Answer → Exec → Exec
continue done n trace = n trace
continue (raised e) n trace = (raised e, trace)

infixl 5 ◌>>◌
unfoldable pub ◌>>◌ : Exec → Exec → Exec
◌>>◌ m n trace = let (r, trace') = m trace in continue r n trace'

unfoldable pub each : {A : Type 0} → (A → Exec) → List A → Exec
each act [] = pure
each act (a ∷ rest) = act a >> each act rest

module _ (env : Environment) where
  unfoldable pub step : Step → Exec
  step s trace = (env.answer trace s, s ∷ trace)

  abbrev pub answer_of : Option Bool → Answer
  answer_of none = raised still_running
  answer_of (some true) = raised permanent
  answer_of (some false) = done

  -- `await run_task(task_def)`
  unfoldable pub run_tasks : List Task → Exec
  run_tasks tasks trace =
      (answer_of (run_task (env.ending trace) env.fuel tasks), start_tasks tasks ∷ trace)
