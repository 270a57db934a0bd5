-- ===== src/Migration/Stages.antt =====
-- The stages of `do_migration` of openstack_controller/cli/ovs_ovn_migration.py and the state that its
-- configmap keeps of them.
--
-- What a stage does is not modelled: its executable is recorded, and succeeds or raises.
use openstack_controller.Common.{
  leb, if◌then◌else◌, length, contains, Dict, lookup, insert, ℕ, String, Bool, true, false, not,
  ◌&&◌, Option, none, some, List, [], ◌∷◌, nat_eq, string_eq,
}

-- `status` of a stage: INIT, STARTED, COMPLETED, FAILED
pub data Status : Type 0 where
  init started completed failed : Status

pub record State : Type 0 where
  -- the data of the configmap
  pub stages : Dict Status
  -- the stages whose executables were called, the latest first
  pub executed : List String

pub data Outcome : Type 0 where
  finished aborted raised : Outcome

-- The script's arguments, what the executables of the stages come to, and the answer of the operator
-- after each stage, where one is asked.
pub record Run : Type 0 where
  pub interactive : Bool
  pub succeeds : String → Bool
  pub proceeds : String → Bool

-- `StateCM.create`
unfoldable pub create : List String → Dict Status
create [] = []
create (s ∷ stages) = (s, init) ∷ create stages

-- `StateCM.update`
unfoldable pub update : String → Status → State → State
update stage status state = record state { stages = insert stage status state.stages }

abbrev pub is_completed : Option Status → Bool
is_completed (some completed) = true
is_completed _ = false

abbrev pub is_known : Option Status → Bool
is_known none = false
is_known (some s) = true

module _ (run : Run) (initial : Dict Status) where
  -- The call of a stage's executable, with the updates around it.
  unfoldable pub execute : String → State → Bool × State
  execute stage state =
      let called = record (update stage started state) { executed = stage ∷ state.executed } in
      if run.succeeds stage
      then (true, update stage completed called)
      else (false, update stage failed called)

  -- The body of the loop up to `finally`, on the state as it was at the start. A stage that it does not
  -- name is a KeyError, which fails the stage.
  unfoldable pub run_stage : String → State → Bool × State
  run_stage stage state =
      if is_completed (lookup stage initial)
      then (true, state)
      else (if is_known (lookup stage initial)
          then execute stage state
          else (false, update stage failed state))

  abbrev pub is_last : List String → Bool
  is_last [] = true
  is_last (s ∷ rest) = false

  -- Whether the operator is asked after a stage.
  abbrev pub asks : List String → Bool
  asks rest = run.interactive && not (is_last rest)

  unfoldable pub migrate : List String → State → Outcome × State
  migrate [] state = (finished, state)
  migrate (stage ∷ rest) state =
      let (good, after) = run_stage stage state in
      let later = migrate rest after in
      if asks rest
      then (if run.proceeds stage then later else (aborted, after))
      else (if good then later else (raised, after))

-- `do_migration`
unfoldable pub do_migration : Run → List String → Dict Status → Outcome × State
do_migration run workflow initial =
    migrate run initial workflow (record { stages = initial; executed = [] })

-- One result of a command on a node. `has_role` says whether the node has the role that is checked.
pub record NodeResult : Type 0 where
  pub node : String
  pub success : Bool
  pub has_role : Bool

abbrev add : String → List String → List String
add name names = if contains names name then names else name ∷ names

-- The set `failed_nodes`
unfoldable pub failed_nodes : List NodeResult → List String
failed_nodes [] = []
failed_nodes (r ∷ results) =
    let rest = failed_nodes results in if r.has_role && not r.success then add r.node rest else rest

-- `check_nodes_results`
unfoldable pub check_nodes_results : List NodeResult → ℕ → List String × Bool
check_nodes_results results threshold =
    let nodes = failed_nodes results in (nodes, not (leb (length nodes) threshold))
