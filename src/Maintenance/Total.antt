-- ===== src/Maintenance/Total.antt =====
-- The handlers of a NodeMaintenanceRequest return where nothing outside fails.
use openstack_controller.Maintenance.Lock.{
  patch, set_state, unset_error_message, is_maintenance, set_inner_state, reload, is_inner_active,
}
use openstack_controller.Maintenance.Hooks.{
  restore_lock, each_service, release_lock, call_hook, wait_until, Environment, ServiceClass,
}
use openstack_controller.Common.{
  if◌then◌else◌, Bool-cases, any, String, ◌≡◌, refl, inl, inr, Bool, true, false, some, List, [],
  ◌∷◌,
}
use openstack_controller.Maintenance.Cluster.{
  Cluster, Lock, node_workload, LockState, LockInnerState, Exec, Result, ok, err, ◌>>=◌, find_lock,
  continue, pure, lift, gets, Hook,
}
use openstack_controller.Maintenance.Returns.{find-update, patch-found}

-- The node's lock is there and has a state.
abbrev pub HasState : String → Cluster → Type 0
HasState n c =
    (l : Lock) × (find_lock node_workload n c ≡ some l) × ((s : LockState) × (l.state ≡ some s))

-- `m` returns, and the lock keeps a state.
pub record Total (n : String) {A : Type 0} (m : Exec A) : Type 0 where
  pub at : (c : Cluster) → HasState n c → ((a : A) × ((m c).0 ≡ ok a)) × HasState n (m c).1

module _ {n : String} {A : Type 0} where
  pub Total-pure : (a : A) → Total n (pure a)
  Total-pure a = record { at = λ c h. ((a, refl), h) }

  pub Total-gets : (f : Cluster → A) → Total n (gets f)
  Total-gets f = record { at = λ c h. ((f c, refl), h) }

  pub Total-lift : (r : Result A) (a : A) → r ≡ ok a → Total n (lift r)
  Total-lift r a e = record { at = λ c h. ((a, e), h) }

  pub Total-if : (b : Bool) (p q : Exec A) → Total n p → Total n q → Total n (if b then p else q)
  Total-if true p q tp tq = tp
  Total-if false p q tp tq = tq

module _ {n : String} {A B : Type 0} where
  Total-continue :
      (r : Result A) (f : A → Exec B) (c : Cluster)
      → ((a : A) × (r ≡ ok a))
      → ((a : A) → Total n (f a))
      → HasState n c
      → ((b : B) × ((continue r f c).0 ≡ ok b)) × HasState n (continue r f c).1
  Total-continue (ok a) f c e k h = (k a).at c h
  Total-continue (err x) f c e k h = absurd (no e)
    where
      no : ((a : A) × (err x ≡ ok a)) → ⊥
      no (a, e) = cc

  pub Total-bind :
      (m : Exec A) (f : A → Exec B) → Total n m → ((a : A) → Total n (f a)) → Total n (m >>= f)
  unfolding ◌>>=◌
  Total-bind m f t k = record {
    at = λ c h. let (e, h') = t.at c h in Total-continue (m c).0 f (m c).1 e k h';
  }

-- A write that keeps the name, and a state.
abbrev pub KeepsState : (Lock → Lock) → Type 0
KeepsState f =
    (l : Lock)
    → ((f l).name ≡ l.name)
      × (((s : LockState) × (l.state ≡ some s)) → (s : LockState) × ((f l).state ≡ some s))

module _ (n : String) where
  pub Total-patch : (f : Lock → Lock) → KeepsState f → Total n (patch node_workload n f)
  Total-patch f k = record {
    at = λ c (l, e, s).
        rw (patch-found n f c e)
          ((tt, refl), (f l, find-update n f c.node_locks (λ m. (k m).0) e, (k l).1 s));
  }

  pub Total-set_state : (s : LockState) → Total n (set_state node_workload n s)
  unfolding set_state
  Total-set_state s = Total-patch _ (λ l. (refl, λ _. (s, refl)))

  pub Total-set_inner_state : (s : LockInnerState) → Total n (set_inner_state node_workload n s)
  unfolding set_inner_state
  Total-set_inner_state s = Total-patch _ (λ l. (refl, λ h. h))

  pub Total-unset_error_message : Total n (unset_error_message node_workload n)
  unfolding unset_error_message
  Total-unset_error_message = Total-patch _ (λ l. (refl, λ h. h))

  pub Total-release_lock : Total n (release_lock n)
  unfolding release_lock
  Total-release_lock = Total-bind _ _ (Total-set_state _) (λ _. Total-unset_error_message)

  pub Total-restore_lock : Total n (restore_lock n)
  unfolding restore_lock
  Total-restore_lock =
      Total-bind _ _ (Total-set_inner_state _)
        (λ _. Total-bind _ _ (Total-set_state _) (λ _. Total-unset_error_message))

  pub Total-is_maintenance : Total n (is_maintenance node_workload n)
  unfolding is_maintenance reload ◌>>=◌
  Total-is_maintenance = record {
    at = λ c (l, e, s). rw (e, reload) ((is_inner_active l.inner_state, refl), (l, e, s));
  }

  pub Total-call_hook :
      (env : Environment) (hook : Hook) (service node : String)
      → env.hook hook service node ≡ ok tt
      → Total n (call_hook env hook service node)
  unfolding call_hook ◌>>=◌
  Total-call_hook env hook service node e = record { at = λ c h. ((tt, e), h) }

  pub Total-each :
      (act : String → Exec (Unit {0})) (services : List ServiceClass)
      → ((s : String) → Total n (act s))
      → Total n (each_service act services)
  unfolding each_service
  Total-each act [] k = Total-pure tt
  Total-each act (s ∷ rest) k =
      Total-bind _ _ (Total-if s.maintenance_api _ _ (k s.service) (Total-pure tt))
        (λ _. Total-each act rest k)

  pub Total-wait_until :
      {A : Type 0} (good : A → Bool) (polls : List A)
      → any good polls ≡ true
      → Total n (wait_until good polls)
  unfolding wait_until
  Total-wait_until good [] h = cc
  Total-wait_until good (a ∷ polls) h = elim (Bool-cases (good a)) [
    | inl e ↦ rw e (Total-pure tt)
    | inr e ↦ rw e (Total-wait_until good polls (rw e at h))
  ]

-- A block whose first part returns ends as its rest does from there.
pub bind-Total :
    (n : String) (m rest : Exec (Unit {0})) (c : Cluster)
    → ((a : Unit {0}) × ((m c).0 ≡ ok a))
    → ((a : Unit {0}) × ((rest (m c).1).0 ≡ ok a))
    → (a : Unit {0}) × (((m >>= λ _. rest) c).0 ≡ ok a)
unfolding ◌>>=◌
bind-Total n m rest c (a, e) r = rw e r
