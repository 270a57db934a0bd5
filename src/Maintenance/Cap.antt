-- ===== src/Maintenance/Cap.antt =====
-- The number of nodes in maintenance: how it counts, and what a patch of one lock does to it.
pub mod Methods
pub mod Acquire
pub mod Present
pub mod Held
pub mod Hooked
pub mod Handling
pub mod Runs
use mathlib.Core.Path.{fun_ext}
use openstack_controller.Common.{
  ◌==◌, eq_iff, Bool-cases, length, select, count, find, All, after_char, ℕ, ◌+◌, ◌≤◌, String, ◌≡◌,
  refl, ap, ◌∙◌, inl, inr, Bool, true, false, ◌&&◌, Option, none, some, List, [], ◌∷◌, ◌++◌, arith,
  nat_eq, string_eq,
}
use openstack_controller.Kube.Node.{Node, NodeRole, RoleLabels, has_role, has_os_role}
use openstack_controller.Maintenance.Cluster.{
  Cluster, Lock, Kind, node_workload, cluster_workload, LockInnerState, find_lock, named,
  update_named, remove_named,
}
use openstack_controller.Maintenance.Lock.{
  Settings, workload, lock_name, find_node, node_exists, safe_get_node, is_inner_active, get_all,
  holds_role, maintenance_locks,
}

abbrev pub node_has_role : RoleLabels → NodeRole → Option Node → Bool
node_has_role labels role none = false
node_has_role labels role (some n) = has_role labels n role

-- The lock takes one of the places of the role.
abbrev pub occupies : RoleLabels → List Node → NodeRole → Lock → Bool
occupies labels nodes role l =
    l.controller_name == workload
    && (is_inner_active l.inner_state
        && node_has_role labels role (find (λ n. n.name == l.node_name) nodes))

abbrev pub occupied : RoleLabels → NodeRole → Cluster → ℕ
occupied labels role c = count (occupies labels c.nodes role) c.node_locks

holds-eq :
    (cfg : Settings) (c : Cluster) (role : NodeRole) (l : Lock)
    → holds_role cfg c role l ≡ (
        is_inner_active l.inner_state
        && node_has_role cfg.role_labels role (find (λ n. n.name == l.node_name) c.nodes))
unfolding holds_role safe_get_node
holds-eq cfg c role l = ground arith

length-select-select :
    (p q : Lock → Bool) (ls : List Lock)
    → length (select p (select q ls)) ≡ count (λ l. q l && p l) ls
length-select-select p q [] = refl
length-select-select p q (l ∷ ls) = ground (arith, length-select-select p q ls)

-- The code's count of the locks of a role is the number of occupied places.
pub length-maintenance_locks :
    (cfg : Settings) (c : Cluster) (role : NodeRole)
    → length (maintenance_locks cfg c role) ≡ occupied cfg.role_labels role c
unfolding maintenance_locks get_all
length-maintenance_locks cfg c role =
    length-select-select (holds_role cfg c role) (λ l. l.controller_name == workload) c.node_locks
    ∙ ap (λ (p : Lock → Bool). count p c.node_locks)
        (fun_ext (λ l. ap (λ b. (l.controller_name == workload) && b) (holds-eq cfg c role l)))

-- A lock that bears the name of a node's lock is this controller's, and is about that node.
abbrev pub WellNamed : Lock → Type 0
WellNamed l =
    (name : String)
    → l.name ≡ lock_name name
    → (l.controller_name ≡ workload) × (l.node_name ≡ after_char b'-' l.name)

module _ (p : Lock → Bool) (n : String) (f : Lock → Lock) where
  pub count-update_le :
      (ls : List Lock)
      → All WellNamed ls
      → ((l : Lock) → l.name ≡ n → WellNamed l → p (f l) ≡ true → p l ≡ true)
      → count p (update_named n f ls) ≤ count p ls
  count-update_le [] w h = omega arith
  count-update_le (l ∷ ls) w h = elim (Bool-cases (l.name == n)) [
    | inl e ↦ rw e (ground (arith, h l ((eq_iff l.name n).0 e) w.0))
    | inr e ↦ rw e (omega (arith, count-update_le ls w.1 h))
  ]

  pub count-update_le_suc : (ls : List Lock) → count p (update_named n f ls) ≤ count p ls + 1
  count-update_le_suc [] = omega arith
  count-update_le_suc (l ∷ ls) = ground (arith, count-update_le_suc ls)

  pub All-update :
      (ls : List Lock)
      → All WellNamed ls
      → ((l : Lock) → l.name ≡ n → WellNamed l → WellNamed (f l))
      → All WellNamed (update_named n f ls)
  All-update [] w h = tt
  All-update (l ∷ ls) w h = elim (Bool-cases (l.name == n)) [
    | inl e ↦ rw e (h l ((eq_iff l.name n).0 e) w.0, w.1)
    | inr e ↦ rw e (w.0, All-update ls w.1 h)
  ]

pub count-remove_le :
    (p : Lock → Bool) (n : String) (ls : List Lock) → count p (remove_named n ls) ≤ count p ls
count-remove_le p n [] = omega arith
count-remove_le p n (l ∷ ls) = ground (arith, count-remove_le p n ls)

pub All-remove :
    (n : String) (ls : List Lock) → All WellNamed ls → All WellNamed (remove_named n ls)
All-remove n [] w = tt
All-remove n (l ∷ ls) w = elim (Bool-cases (l.name == n)) [
  | inl e ↦ rw e w.1
  | inr e ↦ rw e (w.0, All-remove n ls w.1)
]

pub All-snoc :
    (ls : List Lock) (l : Lock) → All WellNamed ls → WellNamed l → All WellNamed (ls ++ l ∷ [])
All-snoc [] l w h = (h, tt)
All-snoc (k ∷ ls) l w h = (w.0, All-snoc ls l w.1 h)

-- A patch that writes what the named lock already has changes nothing.
pub update-found :
    (n : String) (f : Lock → Lock) (ls : List Lock) {l : Lock}
    → find (named n) ls ≡ some l
    → f l ≡ l
    → update_named n f ls ≡ ls
update-found n f [] e h = refl
update-found n f (k ∷ ls) {l} e h = elim (Bool-cases (k.name == n)) [
  | inl t ↦ rw t (let e' : some k ≡ some l = rw t at e in cc)
  | inr t ↦ rw t (ap (λ r. k ∷ r) (update-found n f ls (rw t at e) h))
]
