-- ===== src/Deployment/Rounds.antt =====
-- What the loop of `run_task` comes to, one task at a time.
use openstack_controller.Common.{
  if◌then◌else◌, all, any, ℕ, zero, suc, ◌≡◌, refl, Bool, false, not, ◌&&◌, ◌||◌, none, some, List,
  [], ◌∷◌, arith,
}
use openstack_controller.Deployment.Tasks.{
  Task, Ending, returned, permanent_error, other_error, is_permanent, is_retriable, retried, fails,
  rounds, run_task,
}

module _ (ending : ℕ → Task → Ending) where
  -- How a task left to itself comes out: the first end that is no reason to retry, from a round on.
  unfoldable pub outcome : ℕ → ℕ → Task → Ending
  outcome zero round t = other_error
  outcome (suc fuel) round t =
      let later = outcome fuel (suc round) t in
      let now = ending round t in if is_retriable now then later else now

  abbrev pub is_settled : ℕ → ℕ → Task → Bool
  is_settled fuel round t = not (is_retriable (outcome fuel round t))

  abbrev pub all_settled : ℕ → ℕ → List Task → Bool
  all_settled fuel round tasks = all (is_settled fuel round) tasks

  abbrev pub any_permanent : ℕ → ℕ → List Task → Bool
  any_permanent fuel round tasks = any (λ t. is_permanent (outcome fuel round t)) tasks

  all_settled-suc :
      (fuel round : ℕ) (tasks : List Task)
      → all_settled (suc fuel) round tasks
        ≡ all_settled fuel (suc round) (retried ending round tasks)
  unfolding outcome retried
  all_settled-suc fuel round [] = refl
  all_settled-suc fuel round (t ∷ tasks) = split (all_settled-suc fuel round tasks) (ending round t)
    where
      split :
          all_settled (suc fuel) round tasks
            ≡ all_settled fuel (suc round) (retried ending round tasks)
          → (now : Ending)
          → (not (is_retriable (if is_retriable now then outcome fuel (suc round) t else now))
              && all_settled (suc fuel) round tasks)
            ≡ all_settled fuel (suc round) (
                if is_retriable now
                then t ∷ retried ending round tasks
                else retried ending round tasks)
      split rest returned = rest
      split rest permanent_error = rest
      split rest other_error = rw rest

  any_permanent-suc :
      (fuel round : ℕ) (tasks : List Task)
      → any_permanent (suc fuel) round tasks
        ≡ (fails ending round tasks || any_permanent fuel (suc round) (retried ending round tasks))
  unfolding outcome retried fails
  any_permanent-suc fuel round [] = refl
  any_permanent-suc fuel round (t ∷ tasks) =
      split (any_permanent-suc fuel round tasks) (ending round t)
    where
      split :
          any_permanent (suc fuel) round tasks ≡ (
            fails ending round tasks || any_permanent fuel (suc round) (retried ending round tasks))
          → (now : Ending)
          → (is_permanent (if is_retriable now then outcome fuel (suc round) t else now)
              || any_permanent (suc fuel) round tasks)
            ≡ ((is_permanent now || fails ending round tasks)
                || any_permanent fuel (suc round) (
                    if is_retriable now
                    then t ∷ retried ending round tasks
                    else retried ending round tasks))
      split rest returned = rest
      split rest permanent_error = refl
      split rest other_error = ground (arith, rest)

  rounds-outcomes :
      (fuel round : ℕ) (tasks : List Task) (failed : Bool)
      → rounds ending fuel round tasks failed ≡ (
          if all_settled fuel round tasks
          then some (failed || any_permanent fuel round tasks)
          else none)
  unfolding rounds outcome
  rounds-outcomes fuel round [] failed = ground arith
  rounds-outcomes zero round (t ∷ tasks) failed = refl
  rounds-outcomes (suc fuel) round (t ∷ tasks) failed =
      rw (all_settled-suc fuel round (t ∷ tasks), any_permanent-suc fuel round (t ∷ tasks))
        (ground (
          arith,
          rounds-outcomes fuel (suc round) (retried ending round (t ∷ tasks))
              (failed || fails ending round (t ∷ tasks)),
        ))

-- The loop ends within `fuel` rounds exactly when every task, each for itself, returns or fails for
-- good within as many runs. It then raises exactly when one of them fails for good: a failure of one
-- task neither stops the others nor gets lost while others are run again.
pub run_task-outcomes :
    (ending : ℕ → Task → Ending) (fuel : ℕ) (tasks : List Task)
    → run_task ending fuel tasks ≡ (
        if all_settled ending fuel zero tasks
        then some (any_permanent ending fuel zero tasks)
        else none)
unfolding run_task
run_task-outcomes ending fuel tasks = rounds-outcomes ending fuel zero tasks false
