-- ===== src/Kube/Readiness.antt =====
-- What the tests on workloads come to.
use openstack_controller.Common.{
  ltb, ◌==◌, eq_iff, eq_refl, if◌then◌else◌, Bool-cases, select, count, all, length-select,
  contains, ℕ, zero, suc, ◌+◌, ◌-◌, ◌≤◌, ◌<◌, String, ◌≡◌, refl, sym, ap, ◌∙◌, ◌≢◌, ◌↔◌, ◌⊎◌, inl,
  inr, true, false, ◌||◌, some, List, [], ◌∷◌, ◌++◌, arith, nat_eq, string_eq,
}
use openstack_controller.Kube.Node.{Condition}
use openstack_controller.Kube.Workloads.{
  is_nonempty, Replica, is_elsewhere, all_ready, Rollout, is_job_ready, is_job_completed,
  is_node_locked, ensure_finalizer_absent, wait_for_replicas, ensure_finalizer_present, or_zero,
  remove_first, is_ready_or_complete, is_true,
}

all_ready-true : (pods : List Replica) → all_ready pods ≡ true
unfolding all_ready
all_ready-true [] = refl
all_ready-true (p ∷ pods) = ground (arith, all_ready-true pods)

-- A node is locked by a stateful set exactly when the ready pods, or the pods on other nodes, are
-- fewer than the replicas less one. Whether a pod on another node is ready is never asked, although
-- the source means to.
pub is_node_locked-counts :
    (replicas : ℕ) (pods : List Replica) (node : String)
    → (is_node_locked replicas pods node ≡ true) ↔ (
        (count (λ p. p.pod_ready) pods + 1 < replicas)
        ⊎ (count (is_elsewhere node) pods + 1 < replicas))
unfolding is_node_locked
is_node_locked-counts replicas pods node =
    rw
      (
        all_ready-true (select (is_elsewhere node) pods),
        length-select (λ (p : Replica). p.pod_ready) pods,
        length-select (is_elsewhere node) pods,
      )
      (split (count (λ p. p.pod_ready) pods) (count (is_elsewhere node) pods))
  where
    split :
        (a b : ℕ)
        → ((if ltb a (replicas - 1) then true else (if ltb b (replicas - 1) then true else false))
            ≡ true)
          ↔ ((a + 1 < replicas) ⊎ (b + 1 < replicas))
    split a b = ground arith

any-select :
    (conditions : List Condition)
    → is_nonempty (select is_ready_or_complete conditions) ≡ true
    → all is_true (select is_ready_or_complete conditions) ≡ true
    → is_job_completed conditions ≡ true
unfolding is_job_completed
any-select [] n h = cc
any-select (c ∷ conditions) n h = elim (Bool-cases (is_ready_or_complete c)) [
  | inl e ↦ ground (arith, e, h)
  | inr e ↦ ground (arith, e, h, n, any-select conditions)
]

-- A job that counts as ready counts as completed.
pub is_job_ready-completed :
    (conditions : List Condition)
    → is_job_ready conditions ≡ true
    → is_job_completed conditions ≡ true
unfolding is_job_ready
is_job_ready-completed conditions h = ground (arith, h, any-select conditions)

remove_first-append :
    (f : String) (l : List String) → contains l f ≡ false → remove_first f (l ++ f ∷ []) ≡ l
remove_first-append f [] h = rw (eq_refl f) refl
remove_first-append f (g ∷ l) h = ground (arith, h, remove_first-append f l)

contains-append :
    (f g : String) (l : List String) → contains (l ++ f ∷ []) g ≡ (f == g || contains l g)
contains-append f g [] = refl
contains-append f g (x ∷ l) = ground (arith, contains-append f g l)

-- Only the first one is removed.
remove_first-count :
    (f g : String) (l : List String)
    → contains l f ≡ true
    → count (λ x. x == g) l ≡ count (λ x. x == g) (remove_first f l) + (if f == g then 1 else 0)
remove_first-count f g [] h = cc
remove_first-count f g (x ∷ l) h = elim (Bool-cases (x == f)) [
  | inl e ↦
      let same = (eq_iff x f).0 e in
      rw e (
        ap (λ y. (if y == g then 1 else 0) + count (λ z. z == g) l) same
        ∙ swap (if f == g then 1 else 0) (count (λ z. z == g) l))
  | inr e ↦ let rest = remove_first-count f g l (rw e at h) in rw e (omega (arith, rest))
]
  where
    swap : (a b : ℕ) → a + b ≡ b + a
    swap a b = omega arith

count-absent :
    (f g : String) (l : List String)
    → contains l f ≡ false
    → count (λ x. x == g) l ≡ count (λ x. x == g) l - (if f == g then 1 else 0)
count-absent f g l h = elim (Bool-cases (f == g)) [
  | inl e ↦
      let none_there : count (λ x. x == g) l ≡ 0 =
        ap (λ y. count (λ x. x == y) l) (sym ((eq_iff f g).0 e)) ∙ zero_of l h in
      rw e (omega (arith, none_there))
  | inr e ↦ rw e (omega arith)
]
  where
    zero_of : (l : List String) → contains l f ≡ false → count (λ x. x == f) l ≡ 0
    zero_of [] h = refl
    zero_of (x ∷ l) h = ground (arith, h, zero_of l)

-- `ensure_finalizer_present` ends with the finalizer there, any other as it was, and does nothing where
-- it is there already. `ensure_finalizer_absent` never fails: `list.remove` finds what it removes. It takes
-- away one occurrence where there is one, touches no other finalizer, and does nothing where there is none.
-- What one adds the other takes away: where the finalizer was not there, the list is as before.
pub ensure_finalizer-states :
    (f : String) (l : List String)
    → ((g : String) → contains (ensure_finalizer_present f l) g ≡ (f == g || contains l g))
      × (ensure_finalizer_present f (ensure_finalizer_present f l) ≡ ensure_finalizer_present f l)
      × ((left : List String) × (ensure_finalizer_absent f l ≡ some left)
          × ((g : String)
              → count (λ x. x == g) left ≡ count (λ x. x == g) l - (if f == g then 1 else 0)))
      × ((contains l f ≡ true) ⊎ (ensure_finalizer_absent f l ≡ some l))
      × (ensure_finalizer_absent f (ensure_finalizer_present f l)
          ≡ some (if contains l f then remove_first f l else l))
unfolding ensure_finalizer_absent ensure_finalizer_present
ensure_finalizer-states f l = elim (Bool-cases (contains l f)) [
  | inl e ↦ (
    λ g. rw e (there g e),
    rw e (rw e refl),
    (remove_first f l, rw e refl, λ g. omega (arith, remove_first-count f g l e)),
    inl e,
    rw e (rw e refl),
  )
  | inr e ↦ (
    λ g. rw e (contains-append f g l),
    rw e (rw (contains-append f f l, eq_refl f) refl),
    (l, rw e refl, λ g. count-absent f g l e),
    inr (rw e refl),
    rw e (rw (contains-append f f l, eq_refl f) (ap some (remove_first-append f l e))),
  )
]
  where
    there : (g : String) → contains l f ≡ true → contains l g ≡ (f == g || contains l g)
    there g e = elim (Bool-cases (f == g)) [
      | inl same ↦ rw same (ap (contains l) (sym ((eq_iff f g).0 same)) ∙ e)
      | inr differ ↦ rw differ refl
    ]

-- `wait_for_replicas` succeeds exactly when one of its looks sees the wanted number of ready
-- replicas, a missing number being 0.
pub wait_for_replicas-seen :
    (times look wanted : ℕ) (seen : ℕ → Rollout)
    → (wait_for_replicas times look wanted seen ≡ true)
      ↔ ((i : ℕ) × (look ≤ i) × (i < look + times) × (or_zero (seen i).ready_replicas ≡ wanted))
unfolding wait_for_replicas
wait_for_replicas-seen zero look wanted seen =
    (λ h. cc, λ (i, l, u, e). absurd (omega (arith, l, u)))
wait_for_replicas-seen (suc times) look wanted seen =
    elim (Bool-cases (or_zero (seen look).ready_replicas == wanted)) [
      | inl e ↦ (
        λ h. (
          look,
          omega arith,
          omega arith,
          (eq_iff (or_zero (seen look).ready_replicas) wanted).0 e,
        ),
        λ h. rw e refl,
      )
      | inr e ↦ (
        λ h.
            let (i, l, u, s) =
              (wait_for_replicas-seen times (suc look) wanted seen).0 (rw e at h) in
            (i, omega (arith, l), omega (arith, u), s),
        λ (i, l, u, s).
            rw e ((wait_for_replicas-seen times (suc look) wanted seen).1 (later i l u s e)),
      )
    ]
  where
    apart :
        (i : ℕ)
        → or_zero (seen i).ready_replicas ≡ wanted
        → (or_zero (seen look).ready_replicas == wanted) ≡ false
        → look ≢ i
    apart i s e same = ground (arith, s, e, ap (λ k. or_zero (seen k).ready_replicas) same)

    later :
        (i : ℕ)
        → look ≤ i
        → i < look + suc times
        → or_zero (seen i).ready_replicas ≡ wanted
        → (or_zero (seen look).ready_replicas == wanted) ≡ false
        → (j : ℕ) × (suc look ≤ j)
          × (j < suc look + times)
          × (or_zero (seen j).ready_replicas ≡ wanted)
    later i l u s e = (i, omega (arith, l, apart i s e), omega (arith, u), s)
