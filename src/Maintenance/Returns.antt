-- ===== src/Maintenance/Returns.antt =====
-- What is sure of a block or a patch that returns.
use openstack_controller.Maintenance.Hooks.{each_service, ServiceClass}
use openstack_controller.Maintenance.Lock.{patch, reload}
use openstack_controller.Common.{
  ◌==◌, Bool-cases, Option-cases, find, String, ◌≡◌, refl, sym, ap, ◌∙◌, ◌≢◌, inl, inr, true, none,
  some, List, [], ◌∷◌, arith, nat_eq, string_eq,
}
use openstack_controller.Maintenance.Cluster.{
  Cluster, Lock, node_workload, Exec, Result, ok, err, ◌>>=◌, continue, named, update_named,
  find_lock,
}
use openstack_controller.Maintenance.Keeps.{Keeps-if, Keeps, Keeps-pure, Keeps-bind}

-- A block that returns has a first part that returns.
pub bind-ok :
    {A B : Type 0} (m : Exec A) (f : A → Exec B) (c : Cluster) {b : B}
    → ((m >>= f) c).0 ≡ ok b
    → (a : A) × ((m c).0 ≡ ok a) × ((m >>= f) c ≡ f a (m c).1)
unfolding ◌>>=◌
bind-ok {A} {B} m f c {b} = go (m c).0 (m c).1
  where
    go :
        (r : Result A) (c' : Cluster)
        → (continue r f c').0 ≡ ok b
        → (a : A) × (r ≡ ok a) × (continue r f c' ≡ f a c')
    go (ok a) c' e = (a, refl, refl)
    go (err x) c' e = cc

pub find-update :
    (n : String) (f : Lock → Lock) (ls : List Lock) {l : Lock}
    → ((k : Lock) → (f k).name ≡ k.name)
    → find (named n) ls ≡ some l
    → find (named n) (update_named n f ls) ≡ some (f l)
find-update n f [] same e = cc
find-update n f (k ∷ ls) {l} same e = elim (Bool-cases (k.name == n)) [
  | inl t ↦
      let t' : ((f k).name == n) ≡ true = ap (λ s. s == n) (same k) ∙ t in
      let found : some k ≡ some l = rw t at e in rw t (rw t' (cc))
  | inr t ↦ rw (t, t) (find-update n f ls same (rw t at e))
]

module _ (n : String) (f : Lock → Lock) (c : Cluster) where
  patch-absent : find_lock node_workload n c ≡ none → (patch node_workload n f c).0 ≢ ok tt
  unfolding patch reload ◌>>=◌
  patch-absent e r = ground (arith, e, r)

  pub patch-found :
      {l : Lock}
      → find_lock node_workload n c ≡ some l
      → patch node_workload n f c ≡ (ok tt, record c { node_locks = update_named n f c.node_locks })
  unfolding patch reload ◌>>=◌
  patch-found e = rw (e, reload)

-- A patch that returns has found the object, and has written it.
pub patch-ok :
    (n : String) (f : Lock → Lock) (c : Cluster)
    → ((k : Lock) → (f k).name ≡ k.name)
    → (patch node_workload n f c).0 ≡ ok tt
    → (l : Lock) × (find_lock node_workload n c ≡ some l)
      × (find_lock node_workload n (patch node_workload n f c).1 ≡ some (f l))
patch-ok n f c same r = elim (Option-cases (find_lock node_workload n c)) [
  | inl e ↦ absurd (patch-absent n f c e r)
  | inr (l, e) ↦ (l, e, rw (patch-found n f c e) (find-update n f c.node_locks same e))
]

pub some_inj : {k l : Lock} → some k ≡ some l → k ≡ l
some_inj e = cc

pub result-ok : {A : Type 0} {x y : Result A × Cluster} {b : Result A} → x ≡ y → x.0 ≡ b → y.0 ≡ b
result-ok e r = ap (λ p. p.0) (sym e) ∙ r

module _ {P : Cluster → Type 0} where
  pub Keeps-each :
      (act : String → Exec (Unit {0})) (services : List ServiceClass)
      → ((s : String) → Keeps P (act s))
      → Keeps P (each_service act services)
  unfolding each_service
  Keeps-each act [] k = Keeps-pure tt
  Keeps-each act (s ∷ rest) k =
      Keeps-bind _ _ (Keeps-if s.maintenance_api _ _ (k s.service) (Keeps-pure tt))
        (λ _. Keeps-each act rest k)
