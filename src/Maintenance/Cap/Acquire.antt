-- ===== src/Maintenance/Cap/Acquire.antt =====
-- `acquire_internal_lock` takes one free place at most.
use openstack_controller.Maintenance.Keeps.{Keeps, keeps_rules}
use openstack_controller.Maintenance.Cap.{
  length-maintenance_locks, update-found, count-update_le_suc, occupies, All-update,
}
use openstack_controller.Maintenance.Cluster.{
  err, ok, Lock, Cluster, find_lock, LockInnerState, update_named, node_workload, ◌>>=◌, Exception,
}
use openstack_controller.Maintenance.Lock.{
  defer_nmr, set_inner_state, Settings, patch, is_inner_active, can_handle_nmr, reload,
  maintenance_locks, acquire_internal_lock, is_maintenance, get_max_parallel_by_role,
}
use openstack_controller.Common.{
  if◌then◌else◌, Bool-cases, Option-cases, length, ◌<◌, String, ◌≡◌, inl, inr, true, not, ◌&&◌,
  none, some, arith,
}
use openstack_controller.Kube.Node.{NodeRole, compute, gateway, controller}
use openstack_controller.Maintenance.Cap.Methods.{IsWithin, Keeps-set_error_message}

room-lt :
    (cfg : Settings) (c : Cluster) (role : NodeRole)
    → can_handle_nmr cfg c ≡ true
    → length (maintenance_locks cfg c role) < get_max_parallel_by_role cfg role
unfolding can_handle_nmr
room-lt cfg c compute h = ground arith
room-lt cfg c gateway h = ground arith
room-lt cfg c controller h = ground arith

pub enter_again :
    (l : Lock)
    → is_inner_active l.inner_state ≡ true
    → record l { inner_state = some LockInnerState.active } ≡ l
enter_again l held = ground (arith, held)

pub set_inner-found :
    (n : String) (c : Cluster) {l : Lock}
    → find_lock node_workload n c ≡ some l
    → set_inner_state node_workload n LockInnerState.active c ≡ (
      ok tt,
      record c {
        node_locks =
            update_named n
              (λ k. record k { inner_state = some LockInnerState.active })
              c.node_locks;
      },
    )
unfolding set_inner_state patch reload ◌>>=◌
set_inner-found n c e = rw (e, reload)

module _ (cfg : Settings) (n : String) (c : Cluster) where
  pub acquire-absent :
      find_lock node_workload n c ≡ none
      → acquire_internal_lock cfg n c ≡ (err Exception.not_found, c)
  unfolding acquire_internal_lock is_maintenance reload ◌>>=◌
  acquire-absent e = rw (e, reload)

  pub acquire-found :
      (l : Lock)
      → find_lock node_workload n c ≡ some l
      → acquire_internal_lock cfg n c
        ≡ (if not (is_inner_active l.inner_state) && not (can_handle_nmr cfg c)
              then defer_nmr n l
              else set_inner_state node_workload n LockInnerState.active)
            c
  unfolding acquire_internal_lock is_maintenance reload ◌>>=◌
  acquire-found l e = rw (e, reload) (rw (e, reload))

module _ (cfg : Settings) (role : NodeRole) where
  Keeps-defer_nmr : (n : String) (l : Lock) → Keeps (IsWithin cfg role) (defer_nmr n l)
  unfolding defer_nmr
  Keeps-defer_nmr n l = search (keeps_rules, Keeps-set_error_message)

  -- The lock that takes a free place.
  IsWithin-enter :
      (n : String) (c : Cluster)
      → IsWithin cfg role c
      → can_handle_nmr cfg c ≡ true
      → IsWithin cfg role (record c {
        node_locks =
            update_named n
              (λ l. record l { inner_state = some LockInnerState.active })
              c.node_locks;
      })
  IsWithin-enter n c h room = record {
    cap = omega (
      arith,
      room-lt cfg c role room,
      length-maintenance_locks cfg c role,
      count-update_le_suc (occupies cfg.role_labels c.nodes role) n _ c.node_locks,
    );
    well_named =
        All-update (occupies cfg.role_labels c.nodes role) n _ c.node_locks h.well_named
          (λ l e w. w);
  }

  pub IsWithin-held :
      (n : String) (c : Cluster) {l : Lock}
      → IsWithin cfg role c
      → find_lock node_workload n c ≡ some l
      → is_inner_active l.inner_state ≡ true
      → IsWithin cfg role (set_inner_state node_workload n LockInnerState.active c).1
  IsWithin-held n c h e held =
      rw (set_inner-found n c e, update-found n _ c.node_locks e (enter_again _ held)) h

  -- Entering maintenance takes one place at most.
  pub IsWithin-acquire :
      (n : String) (c : Cluster)
      → IsWithin cfg role c
      → IsWithin cfg role (acquire_internal_lock cfg n c).1
  IsWithin-acquire n c h = elim (Option-cases (find_lock node_workload n c)) [
    | inl e ↦ rw (acquire-absent cfg n c e) h
    | inr (l, e) ↦
        rw (acquire-found cfg n c l e) (elim (Bool-cases (is_inner_active l.inner_state)) [
          | inl held ↦ rw held (IsWithin-held n c h e held)
          | inr free ↦ rw free (elim (Bool-cases (can_handle_nmr cfg c)) [
            | inl room ↦ rw (room, set_inner-found n c e) (IsWithin-enter n c h room)
            | inr full ↦ rw full ((Keeps-defer_nmr n l).at c h)
          ])
        ])
  ]
