-- ===== src/Maintenance/Outcome.antt =====
-- What a handler that returns has done to the node's lock.
use openstack_controller.Maintenance.Returns.{result-ok, bind-ok, patch-ok, some_inj}
use openstack_controller.Maintenance.Holding.{Held-move}
use openstack_controller.Common.{
  if◌then◌else◌, String, ◌≡◌, refl, sym, ap, ◌∙◌, Bool, true, false, not, ◌||◌, Option, none, some,
  List,
}
use openstack_controller.Kube.Node.{has_os_role}
use openstack_controller.Maintenance.Cluster.{
  Cluster, Lock, node_workload, LockState, LockInnerState, ok, ◌>>=◌, find_lock, pure,
}
use openstack_controller.Maintenance.Lock.{
  Settings, lock_name, node_exists, safe_get_node, set_inner_state, set_state, unset_error_message,
  is_inner_active, acquire_internal_lock, present, is_active, absent,
}
use openstack_controller.Maintenance.Handlers.{
  move_into_maintenance, handle_acquired, nmr_change_handler, return_to_operation,
  nmr_delete_handler, carry_out, is_concerned,
}
use openstack_controller.Maintenance.Hooks.{
  ServiceClass, Request, Environment, release_lock, restore_lock, maintenance_node_name, get_osdpl,
}
use openstack_controller.Maintenance.Cap.Held.{Held, acquire-Held, is_active-state}

-- The lock's fields after a change that was carried through.
pub record IsReleased (n : String) (c : Cluster) : Type 0 where
  pub lock : Lock
  pub found : find_lock node_workload n c ≡ some lock
  pub state : lock.state ≡ some LockState.inactive
  pub inner_state : is_inner_active lock.inner_state ≡ true
  pub error_message : lock.error_message ≡ none

-- The lock's fields after the return to operation.
pub record IsRestored (n : String) (c : Cluster) : Type 0 where
  pub lock : Lock
  pub found : find_lock node_workload n c ≡ some lock
  pub state : lock.state ≡ some LockState.active
  pub inner_state : lock.inner_state ≡ some LockInnerState.inactive
  pub error_message : lock.error_message ≡ none

release_lock-ok :
    (n : String) (c : Cluster)
    → Held n c
    → (release_lock n c).0 ≡ ok tt
    → IsReleased n (release_lock n c).1
unfolding release_lock set_state unset_error_message
release_lock-ok n c (l, e, active) r =
    let (_, first, rest) = bind-ok _ _ c r in
    let (l1, e1, w1) = patch-ok n _ c (λ k. refl) first in
    let (l2, e2, w2) = patch-ok n _ _ (λ k. refl) (result-ok rest r) in
    let same1 : l1 ≡ l = some_inj (sym e1 ∙ e) in
    let same2 : l2 ≡ record l1 { state = some LockState.inactive } = some_inj (sym e2 ∙ w1) in
    rw rest (record {
      lock = record l2 { error_message = none };
      found = w2;
      state = ap (λ k. k.state) same2;
      inner_state =
          ap (λ k. is_inner_active k.inner_state)
            (same2 ∙ ap (λ (k : Lock). record k { state = some LockState.inactive }) same1)
          ∙ active;
      error_message = refl;
    })

restore_lock-ok :
    (n : String) (c : Cluster) → (restore_lock n c).0 ≡ ok tt → IsRestored n (restore_lock n c).1
unfolding restore_lock set_inner_state set_state unset_error_message
restore_lock-ok n c r =
    let (_, first, rest) = bind-ok _ _ c r in
    let r' = result-ok rest r in
    let (_, second, rest') = bind-ok _ _ _ r' in
    let (l1, e1, w1) = patch-ok n _ c (λ k. refl) first in
    let (l2, e2, w2) = patch-ok n _ _ (λ k. refl) second in
    let (l3, e3, w3) = patch-ok n _ _ (λ k. refl) (result-ok rest' r') in
    let same2 : l2 ≡ record l1 { inner_state = some LockInnerState.inactive } =
      some_inj (sym e2 ∙ w1) in
    let same3 : l3 ≡ record l2 { state = some LockState.active } = some_inj (sym e3 ∙ w2) in
    rw (rest, rest')
      (record {
        lock = record l3 { error_message = none };
        found = w3;
        state = ap (λ k. k.state) same3;
        inner_state =
            ap (λ k. k.inner_state)
              (same3 ∙ ap (λ (k : Lock). record k { state = some LockState.active }) same2);
        error_message = refl;
      })

handle_acquired-ok :
    (cfg : Settings) (services : List ServiceClass) (env : Environment) (nmr : Request)
    (node n : String) (osdpl : Option String) (c : Cluster)
    → Held n c
    → (handle_acquired cfg services env nmr node n osdpl c).0 ≡ ok tt
    → IsReleased n (handle_acquired cfg services env nmr node n osdpl c).1
unfolding handle_acquired
handle_acquired-ok cfg services env nmr node n none c h r = release_lock-ok n c h r
handle_acquired-ok cfg services env nmr node n (some osdpl) c h r =
    let (_, _, rest1) = bind-ok _ _ c r in
    let r1 = result-ok rest1 r in
    let (active, _, rest2) = bind-ok _ _ c r1 in
    let r2 = result-ok rest2 r1 in
    let (_, _, rest3) = bind-ok _ _ (is_active node_workload n c).1 r2 in
    rw (rest1, rest2, rest3) (release_lock-ok n _ (moved active) (result-ok rest3 r2))
  where
    moved :
        (active : Bool)
        → Held n
            ((if active then move_into_maintenance cfg services env nmr node n else pure tt)
              (is_active node_workload n c).1).1
    moved true = Held-move cfg services env nmr node n _ (rw (is_active-state node_workload n c) h)
    moved false = rw (is_active-state node_workload n c) h

pub nmr_change_handler-concerned :
    (cfg : Settings) (services : List ServiceClass) (env : Environment) (nmr : Request)
    (c : Cluster)
    → is_concerned cfg services (maintenance_node_name nmr.node_name) c ≡ true
    → nmr_change_handler cfg services env nmr c
      ≡ carry_out cfg services env nmr
          (maintenance_node_name nmr.node_name)
          (lock_name (maintenance_node_name nmr.node_name))
          c
unfolding nmr_change_handler ◌>>=◌
nmr_change_handler-concerned cfg services env nmr c concerned = rw concerned

carry_out-ok :
    (cfg : Settings) (services : List ServiceClass) (env : Environment) (nmr : Request)
    (node n : String) (c : Cluster)
    → (carry_out cfg services env nmr node n c).0 ≡ ok tt
    → IsReleased n (carry_out cfg services env nmr node n c).1
unfolding carry_out
carry_out-ok cfg services env nmr node n c r =
    let (_, _, rest1) = bind-ok _ _ c r in
    let r1 = result-ok rest1 r in
    let (_, e, rest2) = bind-ok _ _ (present cfg node_workload n c).1 r1 in
    let r2 = result-ok rest2 r1 in
    let c' = (acquire_internal_lock cfg n (present cfg node_workload n c).1).1 in
    let (osdpl, _, rest3) = bind-ok _ _ c' r2 in
    rw (rest1, rest2, rest3)
      (handle_acquired-ok cfg services env nmr node n osdpl c'
        (acquire-Held cfg n (present cfg node_workload n c).1 e) (result-ok rest3 r2))

-- A change handler that returns, for a node that exists and carries OpenStack, has left the node's
-- lock inactive, the inner state active and no error message: the node may go down, and counts as
-- in maintenance.
pub nmr_change_handler-IsReleased :
    (cfg : Settings) (services : List ServiceClass) (env : Environment) (nmr : Request)
    (c : Cluster)
    → is_concerned cfg services (maintenance_node_name nmr.node_name) c ≡ true
    → (nmr_change_handler cfg services env nmr c).0 ≡ ok tt
    → IsReleased
        (lock_name (maintenance_node_name nmr.node_name))
        (nmr_change_handler cfg services env nmr c).1
nmr_change_handler-IsReleased cfg services env nmr c concerned r =
    let same = nmr_change_handler-concerned cfg services env nmr c concerned in
    rw same (
      carry_out-ok cfg services env nmr (maintenance_node_name nmr.node_name)
        (lock_name (maintenance_node_name nmr.node_name)) c (result-ok same r))

return_to_operation-ok :
    (cfg : Settings) (services : List ServiceClass) (env : Environment) (node n : String)
    (osdpl : Option String) (c : Cluster)
    → (return_to_operation cfg services env node n osdpl c).0 ≡ ok tt
    → IsRestored n (return_to_operation cfg services env node n osdpl c).1
unfolding return_to_operation
return_to_operation-ok cfg services env node n none c r = restore_lock-ok n c r
return_to_operation-ok cfg services env node n (some osdpl) c r =
    let (_, _, rest1) = bind-ok _ _ c r in
    let r1 = result-ok rest1 r in
    let (_, _, rest2) = bind-ok _ _ _ r1 in
    rw (rest1, rest2) (restore_lock-ok n _ (result-ok rest2 r1))

-- The lock is kept: the node is gone, or still carries OpenStack.
abbrev pub is_kept : Settings → String → Cluster → Bool
is_kept cfg node c = not (node_exists node c) || has_os_role cfg.role_labels (safe_get_node node c)

choose_return :
    (cfg : Settings) (services : List ServiceClass) (env : Environment) (node n : String)
    (osdpl : Option String) (found required : Bool) (c : Cluster)
    → (not found || required) ≡ true
    → let m =
        (if found
          then (if required
              then return_to_operation cfg services env node n osdpl
              else absent node_workload n)
          else restore_lock n) in
      (m c).0 ≡ ok tt → IsRestored n (m c).1
choose_return cfg services env node n osdpl true true c k r =
    return_to_operation-ok cfg services env node n osdpl c r
choose_return cfg services env node n osdpl true false c k r = cc
choose_return cfg services env node n osdpl false required c k r = restore_lock-ok n c r

-- A delete handler that returns, for a node that is gone or still carries OpenStack, has left the
-- node's lock active, the inner state inactive and no error message: OpenStack holds the node again.
pub nmr_delete_handler-IsRestored :
    (cfg : Settings) (services : List ServiceClass) (env : Environment) (nmr : Request)
    (c : Cluster)
    → is_kept cfg (maintenance_node_name nmr.node_name) c ≡ true
    → (nmr_delete_handler cfg services env nmr c).0 ≡ ok tt
    → IsRestored
        (lock_name (maintenance_node_name nmr.node_name))
        (nmr_delete_handler cfg services env nmr c).1
unfolding nmr_delete_handler ◌>>=◌
nmr_delete_handler-IsRestored cfg services env nmr c kept r =
    let node = maintenance_node_name nmr.node_name in
    choose_return cfg services env node (lock_name node) (get_osdpl c) (node_exists node c)
      (has_os_role cfg.role_labels (safe_get_node node c)) c kept r
