-- ===== src/Migration/Executed.antt =====
-- Which stages a run of the migration executes.
use openstack_controller.Common.{
  if◌then◌else◌, All, Dict, lookup, String, ◌≡◌, refl, sym, Bool, true, false, List, [], ◌∷◌,
  nat_eq, string_eq,
}
use openstack_controller.Migration.Stages.{
  is_known, Run, State, Status, Outcome, completed, is_completed, run_stage, migrate, do_migration,
  asks, execute, update,
}

module _ (run : Run) (initial : Dict Status) where
  abbrev IsOpen : String → Type 0
  IsOpen s = is_completed (lookup s initial) ≡ false

  abbrev Opens : Bool × State → Type 0
  Opens r = All IsOpen r.1.executed

  run_stage-executed :
      (stage : String) (state : State)
      → All IsOpen state.executed
      → All IsOpen (run_stage run initial stage state).1.executed
  unfolding run_stage execute update
  run_stage-executed stage state h =
      split (is_completed (lookup stage initial)) (is_known (lookup stage initial))
        (run.succeeds stage) refl
    where
      called : State
      called = record (update stage Status.started state) { executed = stage ∷ state.executed }

      split :
          (done there good : Bool)
          → done ≡ is_completed (lookup stage initial)
          → Opens (
              if done
              then (true, state)
              else (if there
                  then (if good
                      then (true, update stage completed called)
                      else (false, update stage Status.failed called))
                  else (false, update stage Status.failed state)))
      split true there good e = h
      split false true true e = (sym e, h)
      split false true false e = (sym e, h)
      split false false good e = h

  abbrev Ends : Outcome × State → Type 0
  Ends r = All IsOpen r.1.executed

  migrate-executed :
      (stages : List String) (state : State)
      → All IsOpen state.executed
      → All IsOpen (migrate run initial stages state).1.executed
  unfolding migrate
  migrate-executed [] state h = h
  migrate-executed (stage ∷ rest) state h =
      let first = run_stage-executed stage state h in
      go (asks run initial rest) (run.proceeds stage) (run_stage run initial stage state).0
        (run_stage run initial stage state).1 first
        (migrate-executed rest (run_stage run initial stage state).1 first)
    where
      go :
          (asked proceeds good : Bool) (after : State)
          → All IsOpen after.executed
          → All IsOpen (migrate run initial rest after).1.executed
          → Ends (
              if asked
              then (if proceeds then migrate run initial rest after else (Outcome.aborted, after))
              else (if good then migrate run initial rest after else (Outcome.raised, after)))
      go true true good after h later = later
      go true false good after h later = h
      go false proceeds true after h later = later
      go false proceeds false after h later = h

-- No run calls the executable of a stage that was completed when it started, whatever fails and
-- whatever the operator answers.
pub do_migration-executed :
    (run : Run) (workflow : List String) (initial : Dict Status)
    → All
        (λ s. is_completed (lookup s initial) ≡ false)
        (do_migration run workflow initial).1.executed
unfolding do_migration
do_migration-executed run workflow initial =
    migrate-executed run initial workflow (record { stages = initial; executed = [] }) tt
