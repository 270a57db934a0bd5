-- ===== src/Deployment/Tasks.antt =====
-- `run_task` of openstack_controller/controllers/openstackdeployment.py.
--
-- A task is a service's coroutine. How it ends depends on the round of the loop, since tasks wait for
-- what others have done in the rounds before. `asyncio.wait` gives back all tasks of the round.
use openstack_controller.Common.{
  select, any, ℕ, zero, suc, String, Bool, true, false, ◌||◌, Option, none, some, List, [], ◌∷◌,
}

pub data Action : Type 0 where
  apply upgrade delete : Action

pub record Task : Type 0 where
  pub action : Action
  pub service : String

-- How one run of a coroutine ends: it returns, or it raises a PermanentError, or something else.
pub data Ending : Type 0 where
  returned permanent_error other_error : Ending

abbrev pub is_permanent : Ending → Bool
is_permanent permanent_error = true
is_permanent _ = false

abbrev pub is_retriable : Ending → Bool
is_retriable other_error = true
is_retriable _ = false

module _ (ending : ℕ → Task → Ending) where
  -- The tasks that a round puts back into `task_def`.
  unfoldable pub retried : ℕ → List Task → List Task
  retried round tasks = select (λ t. is_retriable (ending round t)) tasks

  -- Whether a round sets `permanent_exception`.
  unfoldable pub fails : ℕ → List Task → Bool
  fails round tasks = any (λ t. is_permanent (ending round t)) tasks

  -- The loop, with what is known of `permanent_exception`: `none` where the fuel ends before the tasks.
  unfoldable pub rounds : ℕ → ℕ → List Task → Bool → Option Bool
  rounds fuel round [] failed = some failed
  rounds zero round (t ∷ tasks) failed = none
  rounds (suc fuel) round (t ∷ tasks) failed =
      rounds fuel (suc round) (retried round (t ∷ tasks)) (failed || fails round (t ∷ tasks))

  -- `some true` where it raises the permanent error at its end.
  unfoldable pub run_task : ℕ → List Task → Option Bool
  run_task fuel tasks = rounds fuel zero tasks false
