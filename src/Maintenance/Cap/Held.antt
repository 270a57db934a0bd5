-- ===== src/Maintenance/Cap/Held.antt =====
-- Between `acquire_internal_lock` and the second `set_inner_state_active` the lock stays in maintenance.
use openstack_controller.Common.{
  ◌==◌, if◌then◌else◌, Bool-cases, Option-cases, find, String, ◌≡◌, refl, ◌≢◌, inl, inr, Bool, true,
  false, not, ◌&&◌, some, List, [], ◌∷◌, arith, nat_eq, string_eq,
}
use openstack_controller.Kube.Node.{Node, NodeRole}
use openstack_controller.Maintenance.Cluster.{
  Cluster, Lock, Kind, node_workload, LockInnerState, Exception, Result, ok, err, ◌>>=◌, named,
  find_lock, update_named,
}
use openstack_controller.Maintenance.Lock.{
  Settings, set_inner_state, acquire_internal_lock, is_active, reload, is_inner_active, defer_nmr,
  can_handle_nmr, patch, set_error_message,
}
use openstack_controller.Maintenance.Hooks.{ServiceClass, ask_services}
use openstack_controller.Maintenance.Cap.Acquire.{set_inner-found, acquire-found, acquire-absent}

-- The lock is there, and in maintenance.
abbrev pub Held : String → Cluster → Type 0
Held n c =
    (l : Lock) × (find_lock node_workload n c ≡ some l) × (is_inner_active l.inner_state ≡ true)

abbrev enter : Lock → Lock
enter l = record l { inner_state = some LockInnerState.active }

find-enter :
    (n : String) (ls : List Lock) {l : Lock}
    → find (named n) ls ≡ some l
    → find (named n) (update_named n enter ls) ≡ some (enter l)
find-enter n [] e = cc
find-enter n (k ∷ ls) {l} e = elim (Bool-cases (k.name == n)) [
  | inl t ↦ rw (t, t) (let found : some k ≡ some l = rw t at e in cc)
  | inr t ↦ rw (t, t) (find-enter n ls (rw t at e))
]

pub set_inner-Held :
    (n : String) (c : Cluster) {l : Lock}
    → find_lock node_workload n c ≡ some l
    → Held n (set_inner_state node_workload n LockInnerState.active c).1
set_inner-Held n c {l} e = rw (set_inner-found n c e) (enter l, find-enter n c.node_locks e, refl)

defer_nmr-raises : (n : String) (l : Lock) (c : Cluster) → (defer_nmr n l c).0 ≢ ok tt
unfolding defer_nmr set_error_message patch reload ◌>>=◌
defer_nmr-raises n l c h = ground (arith, h)

-- Where `acquire_internal_lock` returns, the lock is in maintenance.
pub acquire-Held :
    (cfg : Settings) (n : String) (c : Cluster)
    → (acquire_internal_lock cfg n c).0 ≡ ok tt
    → Held n (acquire_internal_lock cfg n c).1
acquire-Held cfg n c r = elim (Option-cases (find_lock node_workload n c)) [
  | inl e ↦ let r' : err Exception.not_found ≡ ok tt = rw (acquire-absent cfg n c e) at r in cc
  | inr (l, e) ↦ rw (acquire-found cfg n c l e) (
      choose l e (not (is_inner_active l.inner_state) && not (can_handle_nmr cfg c))
        (rw (acquire-found cfg n c l e) at r))
]
  where
    choose :
        (l : Lock)
        → find_lock node_workload n c ≡ some l
        → (b : Bool)
        → ((if b then defer_nmr n l else set_inner_state node_workload n LockInnerState.active) c).0
          ≡ ok tt
        → Held n
            ((if b then defer_nmr n l else set_inner_state node_workload n LockInnerState.active)
              c).1
    choose l e true h = absurd (defer_nmr-raises n l c h)
    choose l e false h = set_inner-Held n c e

pub ask_services-state :
    (ask : String → Node → (NodeRole → List Lock) → Result Bool) (node : Node)
    (held : NodeRole → List Lock) (services : List ServiceClass) (c : Cluster)
    → (ask_services ask node held services c).1 ≡ c
unfolding ask_services ◌>>=◌
ask_services-state ask node held [] c = refl
ask_services-state ask node held (s ∷ rest) c =
    ground (arith, ask_services-state ask node held rest c)

pub is_active-state : (k : Kind) (n : String) (c : Cluster) → (is_active k n c).1 ≡ c
unfolding is_active reload ◌>>=◌
is_active-state k n c = ground arith
