-- ===== src/Migration/Resume.antt =====
-- What a run of the migration leaves, and what the next run does.
use openstack_controller.Common.{
  eq_refl, if◌then◌else◌, All, Dict, lookup, insert, lookup-insert, String, ◌≡◌, refl, sym, ap, ◌∙◌,
  subst, Bool, true, false, not, ◌&&◌, Option, none, some, List, [], ◌∷◌, arith, nat_eq, string_eq,
}
use openstack_controller.Migration.Stages.{
  Run, State, Status, completed, is_completed, run_stage, execute, update, is_known, Outcome,
  do_migration, migrate, finished, is_last,
}

abbrev pub IsCompleted : State → String → Type 0
IsCompleted state stage = lookup stage state.stages ≡ some completed

is_completed-some : (o : Option Status) → is_completed o ≡ true → o ≡ some completed
is_completed-some none h = cc
is_completed-some (some Status.init) h = cc
is_completed-some (some Status.started) h = cc
is_completed-some (some Status.completed) h = refl
is_completed-some (some Status.failed) h = cc

module _ (run : Run) (initial : Dict Status) where
  -- What the loop keeps as long as nothing fails.
  abbrev Known : State → Type 0
  Known state = (s : String) → is_completed (lookup s initial) ≡ true → IsCompleted state s

  Good : String → State → Bool × State → Type 0
  Good stage state (good, after) =
      good ≡ true
      → (IsCompleted after stage) × ((s : String) → IsCompleted state s → IsCompleted after s)

  stored :
      (stage : String) (state : State) (s : String)
      → IsCompleted state s
      → lookup s (insert stage completed (insert stage Status.started state.stages))
        ≡ some completed
  stored stage state s h =
      rw
        (
          lookup-insert stage s completed (insert stage Status.started state.stages),
          lookup-insert stage s Status.started state.stages,
        )
        (ground (arith, h))

  stored_here :
      (stage : String) (state : State)
      → lookup stage (insert stage completed (insert stage Status.started state.stages))
        ≡ some completed
  stored_here stage state =
      rw
        (
          lookup-insert stage stage completed (insert stage Status.started state.stages),
          eq_refl stage,
        )
        refl

  run_stage-Good :
      (stage : String) (state : State)
      → Known state
      → Good stage state (run_stage run initial stage state)
  unfolding run_stage execute update Good
  run_stage-Good stage state known =
      split (is_completed (lookup stage initial)) (is_known (lookup stage initial))
        (run.succeeds stage) (known stage)
    where
      called : State
      called = record (update stage Status.started state) { executed = stage ∷ state.executed }

      split :
          (done there good : Bool)
          → (done ≡ true → IsCompleted state stage)
          → Good stage state (
              if done
              then (true, state)
              else (if there
                  then (if good
                      then (true, update stage completed called)
                      else (false, update stage Status.failed called))
                  else (false, update stage Status.failed state)))
      split true there good k = λ _. (k refl, λ s h. h)
      split false true true k = λ _. (stored_here stage state, λ s h. stored stage state s h)
      split false true false k = λ e. cc
      split false false good k = λ e. cc

  migrate-alone :
      (stage : String) (rest : List String) (state : State)
      → run.interactive ≡ false
      → migrate run initial (stage ∷ rest) state ≡ (
          if (run_stage run initial stage state).0
          then migrate run initial rest (run_stage run initial stage state).1
          else (Outcome.raised, (run_stage run initial stage state).1))
  unfolding migrate
  migrate-alone stage rest state alone =
      let (good, after) = run_stage run initial stage state in
      let later = migrate run initial rest after in
      ap
        (λ b.
          if b && not (is_last run initial rest)
          then (if run.proceeds stage then later else (Outcome.aborted, after))
          else (if good then later else (Outcome.raised, after)))
        alone

  -- What a loop has made of a state, where it finished.
  abbrev Finished : List String → State → Outcome × State → Type 0
  Finished stages state (outcome, end) =
      outcome ≡ finished
      → All (IsCompleted end) stages × ((s : String) → IsCompleted state s → IsCompleted end s)

  migrate-Finished :
      (stages : List String) (state : State)
      → run.interactive ≡ false
      → Known state
      → Finished stages state (migrate run initial stages state)
  unfolding migrate Good
  migrate-Finished [] state alone known = λ _. (tt, λ s h. h)
  migrate-Finished (stage ∷ rest) state alone known =
      subst (Finished (stage ∷ rest) state) (sym (migrate-alone stage rest state alone)) (
        go (run_stage run initial stage state).0 (run_stage run initial stage state).1
          (run_stage-Good stage state known) (λ after k. migrate-Finished rest after alone k))
    where
      go :
          (good : Bool) (after : State)
          → Good stage state (good, after)
          → ((after : State) → Known after → Finished rest after (migrate run initial rest after))
          → Finished
              (stage ∷ rest)
              state
              (if good then migrate run initial rest after else (Outcome.raised, after))
      go true after g later = λ e.
          let (here, kept) = g refl in
          let (others, on) = later after (λ s h. kept s (known s h)) e in
          ((on stage here, others), λ s h. on s (kept s h))
      go false after g later = λ e. cc

  run_stage-skips :
      (stage : String) (state : State)
      → lookup stage initial ≡ some completed
      → run_stage run initial stage state ≡ (true, state)
  unfolding run_stage
  run_stage-skips stage state h = rw h refl

  migrate-skips :
      (stages : List String) (state : State)
      → run.interactive ≡ false
      → All (λ s. lookup s initial ≡ some completed) stages
      → migrate run initial stages state ≡ (finished, state)
  unfolding migrate
  migrate-skips [] state alone h = refl
  migrate-skips (stage ∷ rest) state alone h =
      migrate-alone stage rest state alone
      ∙ ap (λ r. if r.0 then migrate run initial rest r.1 else (Outcome.raised, r.1))
          (run_stage-skips stage state h.0)
      ∙ migrate-skips rest state alone h.1

-- A run without an operator that finishes leaves every stage of the workflow completed in the
-- configmap.
pub do_migration-finished :
    (run : Run) (workflow : List String) (initial : Dict Status)
    → run.interactive ≡ false
    → (do_migration run workflow initial).0 ≡ finished
    → All (IsCompleted (do_migration run workflow initial).1) workflow
unfolding do_migration
do_migration-finished run workflow initial alone e =
    (migrate-Finished run initial workflow (record { stages = initial; executed = [] }) alone
      (λ s h. is_completed-some (lookup s initial) h) e).0

skipped :
    (next : Run) (workflow : List String) (stages : Dict Status)
    → next.interactive ≡ false
    → All (λ s. lookup s stages ≡ some completed) workflow
    → do_migration next workflow stages ≡ (finished, record { stages = stages; executed = [] })
unfolding do_migration
skipped next workflow stages alone h = migrate-skips next stages workflow _ alone h

-- The next run after one that finished, both without an operator, finishes, calls no executable and
-- leaves the configmap as it was.
pub do_migration-again :
    (run next : Run) (workflow : List String) (initial : Dict Status)
    → run.interactive ≡ false
    → next.interactive ≡ false
    → (do_migration run workflow initial).0 ≡ finished
    → do_migration next workflow (do_migration run workflow initial).1.stages
      ≡ (finished, record { stages = (do_migration run workflow initial).1.stages; executed = [] })
do_migration-again run next workflow initial alone alone' e =
    skipped next workflow _ alone' (do_migration-finished run workflow initial alone e)
