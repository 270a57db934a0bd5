-- ===== src/Maintenance/Admission.antt =====
-- When a node is let into maintenance, and what the deletion of a lock checks.
use mathlib.Core.List.{}
use openstack_controller.Common.{
  if◌then◌else◌, length, ◌<◌, String, ◌≡◌, refl, sym, ap, ◌∙◌, ◌↔◌, ◌⊎◌, inl, inr, Bool, true,
  false, not, ◌&&◌, ◌||◌, some, arith, nat_eq, string_eq,
}
use openstack_controller.Kube.Node.{NodeRole, compute, gateway, controller}
use openstack_controller.Maintenance.Cluster.{
  Cluster, Lock, node_workload, LockInnerState, Exec, ok, ◌>>=◌, find_lock,
}
use openstack_controller.Maintenance.Lock.{
  Settings, set_inner_state, set_error_message, patch, reload, is_inner_active,
  acquire_internal_lock, defer_nmr, can_handle_nmr, maintenance_locks, get_max_parallel_by_role,
}
use openstack_controller.Maintenance.Handlers.{}
use openstack_controller.Maintenance.Hooks.{}
use openstack_controller.Maintenance.Cap.Acquire.{acquire-found, set_inner-found}

-- Every role has fewer nodes in maintenance than are allowed.
abbrev pub HasRoom : Settings → Cluster → Type 0
HasRoom cfg c =
    (role : NodeRole) → length (maintenance_locks cfg c role) < get_max_parallel_by_role cfg role

can_handle_nmr-HasRoom :
    (cfg : Settings) (c : Cluster) → can_handle_nmr cfg c ≡ true → HasRoom cfg c
unfolding can_handle_nmr
can_handle_nmr-HasRoom cfg c h compute = ground arith
can_handle_nmr-HasRoom cfg c h gateway = ground arith
can_handle_nmr-HasRoom cfg c h controller = ground arith

HasRoom-can_handle_nmr :
    (cfg : Settings) (c : Cluster) → HasRoom cfg c → can_handle_nmr cfg c ≡ true
unfolding can_handle_nmr
HasRoom-can_handle_nmr cfg c h = ground (arith, h compute, h gateway, h controller)

module _ (cfg : Settings) (n : String) (c : Cluster) where
  admitted : Lock → Bool → Bool → Exec (Unit {0})
  admitted l held room =
      if not held && not room
      then defer_nmr n l
      else set_inner_state node_workload n LockInnerState.active

  admitted-ok :
      (l : Lock) (held room : Bool)
      → find_lock node_workload n c ≡ some l
      → ((admitted l held room c).0 ≡ ok tt) ↔ ((held || room) ≡ true)
  unfolding admitted defer_nmr set_error_message patch reload ◌>>=◌
  admitted-ok l true room e = (λ _. refl, λ _. ap (λ p. p.0) (set_inner-found n c e))
  admitted-ok l false true e = (λ _. refl, λ _. ap (λ p. p.0) (set_inner-found n c e))
  admitted-ok l false false e = (λ r. ground (arith, r, e), λ h. cc)

-- For a lock that exists, `acquire_internal_lock` returns exactly when the node is in maintenance
-- already or every role, not only the node's own, has room for one more node.
pub acquire_internal_lock-ok :
    (cfg : Settings) (n : String) (c : Cluster) (l : Lock)
    → find_lock node_workload n c ≡ some l
    → ((acquire_internal_lock cfg n c).0 ≡ ok tt)
      ↔ ((is_inner_active l.inner_state ≡ true) ⊎ HasRoom cfg c)
unfolding admitted
acquire_internal_lock-ok cfg n c l e =
    let iff = admitted-ok cfg n c l (is_inner_active l.inner_state) (can_handle_nmr cfg c) e in
    let same = acquire-found cfg n c l e in
    (
      λ r.
          elim (split (is_inner_active l.inner_state) (can_handle_nmr cfg c)
            (iff.0 (ap (λ p. p.0) (sym same) ∙ r))) [
              | inl held ↦ inl held
              | inr room ↦ inr (can_handle_nmr-HasRoom cfg c room)
            ],
      λ h. ap (λ p. p.0) same ∙ iff.1 (join h),
    )
  where
    split : (held room : Bool) → (held || room) ≡ true → (held ≡ true) ⊎ (room ≡ true)
    split true room h = inl refl
    split false room h = inr h

    join :
        ((is_inner_active l.inner_state ≡ true) ⊎ HasRoom cfg c)
        → (is_inner_active l.inner_state || can_handle_nmr cfg c) ≡ true
    join (inl held) = rw held
    join (inr room) = rw (HasRoom-can_handle_nmr cfg c room) (ground arith)
