-- ===== src/Kube/Workloads.antt =====
-- Deployments, stateful sets, daemon sets, jobs, pods and volumes of openstack_controller/kube.py, as
-- their methods read them. `reload` is left out: the records are what the API server answers.
use openstack_controller.Common.{
  ltb, leb, ◌==◌, if◌then◌else◌, length, select, count, all, any, contains, ℕ, zero, suc, ◌-◌,
  String, Bool, true, false, not, ◌&&◌, ◌||◌, Option, none, some, List, [], ◌∷◌, ◌++◌, map, nat_eq,
  string_eq,
}
use openstack_controller.Kube.Node.{Condition}

-- What `StatefulSet.is_node_locked` reads of a pod.
pub record Replica : Type 0 where
  pub node_name : Option String
  pub pod_ready : Bool

-- `pod_node and pod_node != node_name`
unfoldable pub is_elsewhere : String → Replica → Bool
is_elsewhere node pod = elim pod.node_name [
  | none ↦ false
  | some n ↦ not (n == "") && not (n == node)
]

-- `replicas - 1`. It is only compared with numbers of pods, so that 0 may stand for -1.
abbrev pub min_ready_pods : ℕ → ℕ
min_ready_pods replicas = replicas - 1

-- `all([pod.ready for pod in pods if pod.ready])`
unfoldable pub all_ready : List Replica → Bool
all_ready pods = all (λ b. b) (map (λ p. p.pod_ready) (select (λ p. p.pod_ready) pods))

-- `StatefulSet.is_node_locked`
unfoldable pub is_node_locked : ℕ → List Replica → String → Bool
is_node_locked replicas pods node =
    let ready_pods = select (λ p. p.pod_ready) pods in
    let other_nodes_pods = select (is_elsewhere node) pods in
    if ltb (length ready_pods) (min_ready_pods replicas)
    then true
    else (if ltb (length other_nodes_pods) (min_ready_pods replicas)
        then true
        else not (all_ready other_nodes_pods))

-- The status of a Deployment or StatefulSet. A number that is 0 has no key.
pub record Rollout : Type 0 where
  pub observed_generation : ℕ
  pub generation : ℕ
  pub replicas : ℕ
  pub updated_replicas : Option ℕ
  pub ready_replicas : Option ℕ

abbrev is_number : Option ℕ → ℕ → Bool
is_number none n = false
is_number (some m) n = m == n

-- `Deployment.ready` and `StatefulSet.ready`
unfoldable pub is_rolled_out : Rollout → Bool
is_rolled_out r =
    leb r.generation r.observed_generation
    && is_number r.updated_replicas r.replicas
    && is_number r.ready_replicas r.replicas

abbrev pub or_zero : Option ℕ → ℕ
or_zero none = 0
or_zero (some n) = n

-- `wait_for_replicas`, with what each of its looks at the status sees.
unfoldable pub wait_for_replicas : ℕ → ℕ → ℕ → (ℕ → Rollout) → Bool
wait_for_replicas zero look count seen = false
wait_for_replicas (suc times) look count seen =
    let rest = wait_for_replicas times (suc look) count seen in
    if or_zero (seen look).ready_replicas == count then true else rest

pub record DaemonStatus : Type 0 where
  pub observed_generation : ℕ
  pub generation : ℕ
  pub desired_number_scheduled : Option ℕ
  pub number_ready : Option ℕ
  pub updated_number_scheduled : Option ℕ
  pub update_strategy : Option String

abbrev is_on_delete : Option String → Bool
is_on_delete none = false
is_on_delete (some s) = s == "OnDelete"

-- `DaemonSet.ready`
unfoldable pub is_daemon_ready : DaemonStatus → Bool
is_daemon_ready d =
    if ltb d.observed_generation d.generation
    then false
    else (if is_on_delete d.update_strategy
        then or_zero d.desired_number_scheduled == or_zero d.number_ready
        else or_zero d.number_ready == or_zero d.updated_number_scheduled)

-- `DaemonSet.ensure_finalizer_present`, on the list of finalizers
unfoldable pub ensure_finalizer_present : String → List String → List String
ensure_finalizer_present f finalizers =
    if contains finalizers f then finalizers else finalizers ++ f ∷ []

-- What `list.remove` leaves.
abbrev pub remove_first : String → List String → List String
remove_first f [] = []
remove_first f (g ∷ gs) = let rest = remove_first f gs in if g == f then gs else g ∷ rest

-- `list.remove`, where none is a ValueError
abbrev pub list_remove : String → List String → Option (List String)
list_remove f finalizers = if contains finalizers f then some (remove_first f finalizers) else none

unfoldable pub ensure_finalizer_absent : String → List String → Option (List String)
ensure_finalizer_absent f finalizers =
    if contains finalizers f then list_remove f finalizers else some finalizers

abbrev pub is_true : Condition → Bool
is_true c = c.status == "True"

abbrev pub is_ready_or_complete : Condition → Bool
is_ready_or_complete c = c.type == "Ready" || c.type == "Complete"

abbrev pub is_nonempty : {A : Type 0} → List A → Bool
is_nonempty [] = false
is_nonempty (a ∷ l) = true

-- `Job.ready`
unfoldable pub is_job_ready : List Condition → Bool
is_job_ready conditions =
    let completed = select is_ready_or_complete conditions in
    is_nonempty completed && all is_true completed

-- `Job.completed`
unfoldable pub is_job_completed : List Condition → Bool
is_job_completed conditions =
    any (λ c. (is_ready_or_complete c || c.type == "Failed") && is_true c) conditions

-- `Pod.job_child`, on the kinds of the owners and on the names of the labels
unfoldable pub job_child : List String → List String → Bool
job_child owner_kinds labels =
    if any (λ k. k == "Job") owner_kinds
    then true
    else contains labels "job-name" || contains labels "batch.kubernetes.io/job-name"

pub record Expression : Type 0 where
  pub key : String
  pub operator : String
  pub values : List String

-- `PersistentVolume.is_bound_to_node`, on the expressions of each node selector term
unfoldable pub is_bound_to_node : List (List Expression) → String → Bool
is_bound_to_node terms node =
    any
      (λ term.
        any (λ e. e.key == "kubernetes.io/hostname" && e.operator == "In" && contains e.values node)
          term)
      terms
