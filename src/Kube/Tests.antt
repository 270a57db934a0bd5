-- ===== src/Kube/Tests.antt =====
-- A database of three replicas, one of which is not ready, and other small workloads.
use openstack_controller.Kube.Readiness.{
  ensure_finalizer-states, is_node_locked-counts, is_job_ready-completed, wait_for_replicas-seen,
}
use openstack_controller.Kube.Node.{Condition}
use openstack_controller.Kube.Workloads.{
  Replica, wait_for_replicas, is_elsewhere, Rollout, is_job_completed, ensure_finalizer_present,
  is_node_locked, or_zero, ensure_finalizer_absent, all_ready, is_job_ready,
}
use openstack_controller.Common.{
  ◌==◌, if◌then◌else◌, ◌||◌, count, contains, ℕ, ◌+◌, ◌-◌, ◌≤◌, ◌<◌, String, ◌≡◌, refl, ◌↔◌, ◌⊎◌,
  Bool, true, false, some, List, [], ◌∷◌, nat_eq, string_eq,
}

abbrev replica : String → Bool → Replica
replica node ready = record { node_name = some node; pod_ready = ready }

abbrev replicas : List Replica
replicas = replica "n1" true ∷ replica "n2" true ∷ replica "n3" false ∷ []

abbrev rollout : ℕ → Rollout
rollout ready = record {
  observed_generation = 1;
  generation = 1;
  replicas = 3;
  updated_replicas = some 3;
  ready_replicas = some ready;
}

abbrev completed_job : List Condition
completed_job =
    record { type = "Suspended"; status = "False" }
    ∷ record { type = "Complete"; status = "True" }
    ∷ []

program : Unit {0}
unfolding is_elsewhere all_ready is_node_locked wait_for_replicas is_job_ready is_job_completed
    ensure_finalizer_present ensure_finalizer_absent
program = tt

-- The node may go down, although one ready replica is left then.
is_node_locked-counts_example :
    (is_node_locked 3 replicas "n1" ≡ true)
    ↔ ((count (λ p. p.pod_ready) replicas + 1 < 3) ⊎ (count (is_elsewhere "n1") replicas + 1 < 3))
is_node_locked-counts_example = is_node_locked-counts 3 replicas "n1"

not_locked : is_node_locked 3 replicas "n1" ≡ false
unfolding program
not_locked = refl

is_job_ready-completed_example : is_job_completed completed_job ≡ true
unfolding program
is_job_ready-completed_example = is_job_ready-completed completed_job refl

abbrev finalizers : List String
finalizers = "a" ∷ []

ensure_finalizer-states_example :
    ((g : String)
      → contains (ensure_finalizer_present "b" finalizers) g ≡ ("b" == g || contains finalizers g))
    × (ensure_finalizer_present "b" (ensure_finalizer_present "b" finalizers)
        ≡ ensure_finalizer_present "b" finalizers)
    × ((left : List String) × (ensure_finalizer_absent "b" finalizers ≡ some left)
        × ((g : String)
            → count (λ x. x == g) left
              ≡ count (λ x. x == g) finalizers - (if "b" == g then 1 else 0)))
    × ((contains finalizers "b" ≡ true)
        ⊎ (ensure_finalizer_absent "b" finalizers ≡ some finalizers))
    × (ensure_finalizer_absent "b" (ensure_finalizer_present "b" finalizers) ≡ some finalizers)
ensure_finalizer-states_example = ensure_finalizer-states "b" finalizers

wait_for_replicas-seen_example :
    (wait_for_replicas 60 0 3 rollout ≡ true)
    ↔ ((i : ℕ) × (0 ≤ i) × (i < 60) × (or_zero (rollout i).ready_replicas ≡ 3))
wait_for_replicas-seen_example = wait_for_replicas-seen 60 0 3 rollout
