-- ===== src/Maintenance/Cap/Handling.antt =====
-- No handler exceeds the number of nodes that may be in maintenance.
use openstack_controller.Maintenance.Cap.Held.{
  Held, ask_services-state, acquire-Held, is_active-state,
}
use openstack_controller.Common.{
  if◌then◌else◌, String, refl, Bool, true, false, Option, none, some, List,
}
use openstack_controller.Kube.Node.{Node, NodeRole}
use openstack_controller.Maintenance.Cluster.{
  Cluster, node_workload, LockInnerState, ◌>>◌, raise, pure, services_block_nmr, temporary, Lock,
}
use openstack_controller.Maintenance.Lock.{Settings, lock_name, set_inner_state, set_error_message}
use openstack_controller.Maintenance.Keeps.{
  Keeps, Keeps-bind, Keeps-pure, Keeps-raise, keeps_rules, Keeps-if, bind_at, bind_quiet,
  Keeps-gets,
}
use openstack_controller.Maintenance.Handlers.{
  move_into_maintenance, handle_acquired, nmr_change_handler, return_to_operation,
  nmr_delete_handler, ndn_delete_handler, node_change_handler, node_delete_handler, delete_node,
  clean_up, hand_over, take_back, ndr_change_handler, nwl_delete_handler, cmr_change_handler,
  cmr_delete_handler, hand_over_cluster, carry_out,
}
use openstack_controller.Maintenance.Hooks.{
  ServiceClass, Request, Environment, process_nmr, each_service, maintenance_node_name,
}
use openstack_controller.Maintenance.Cap.Methods.{
  IsWithin, Keeps-absent, Keeps-set_state, Keeps-set_error_message, Keeps-unset_error_message,
  Keeps-is_maintenance, Keeps-get_release, Keeps-is_active,
}
use openstack_controller.Maintenance.Cap.Present.{Keeps-present}
use openstack_controller.Maintenance.Cap.Acquire.{IsWithin-acquire, IsWithin-held}
use openstack_controller.Maintenance.Cap.Hooked.{
  Keeps-each_service, Keeps-wait_until, Keeps-call_hook, Keeps-process_nmr, Keeps-delete_nmr,
  Keeps-cleanup_node, Keeps-release_lock, Keeps-restore_lock,
}

module _ (cfg : Settings) (role : NodeRole) where
  IsWithin-move_into_maintenance :
      (services : List ServiceClass) (env : Environment) (nmr : Request) (node_name n : String)
      (c : Cluster)
      → Held n c
      → IsWithin cfg role c
      → IsWithin cfg role (move_into_maintenance cfg services env nmr node_name n c).1
  unfolding move_into_maintenance
  IsWithin-move_into_maintenance services env nmr node_name n c (l, found, active) h =
      bind_quiet P _ _ c refl h λ node _. bind_quiet P _ _ c refl h λ locks _.
        bind_quiet P _ _ c (ask_services-state env.can_handle_nmr node locks services c) h
          λ allowed _. move node allowed
    where
      P : Cluster → Type 0
      P = IsWithin cfg role

      entered : P (set_inner_state node_workload n LockInnerState.active c).1
      entered = IsWithin-held cfg role n c h found active

      move :
          (node : Node) (allowed : Bool)
          → P
              ((if allowed
                  then (do
                    set_inner_state node_workload n LockInnerState.active
                    each_service (process_nmr env node.name nmr.scope) services)
                  else (do
                    set_error_message node_workload n (services_block_nmr node.name)
                    raise (temporary (services_block_nmr node.name))))
                c).1
      move node true = bind_at P _ _ c entered (λ _ _.
          (Keeps-each_service cfg role _ services
              (Keeps-process_nmr cfg role env node.name nmr.scope)).at
            _ entered)
      move node false =
          (Keeps-bind _ _ (Keeps-set_error_message cfg role node_workload n _)
              (λ _. Keeps-raise _)).at
            c h

  IsWithin-handle_acquired :
      (services : List ServiceClass) (env : Environment) (nmr : Request) (node_name n : String)
      (osdpl : Option String) (c : Cluster)
      → Held n c
      → IsWithin cfg role c
      → IsWithin cfg role (handle_acquired cfg services env nmr node_name n osdpl c).1
  unfolding handle_acquired
  IsWithin-handle_acquired services env nmr node_name n none c held h =
      (Keeps-release_lock cfg role n).at c h
  IsWithin-handle_acquired services env nmr node_name n (some osdpl) c held h =
      bind_quiet (IsWithin cfg role) _ _ c refl h λ _ _.
        bind_quiet (IsWithin cfg role) _ _ c (is_active-state node_workload n c) h λ active _.
          let moved = move active in
          bind_at (IsWithin cfg role) _ _ c moved
            (λ _ _. (Keeps-release_lock cfg role n).at _ moved)
    where
      move :
          (active : Bool)
          → IsWithin cfg role
              ((if active then move_into_maintenance cfg services env nmr node_name n else pure tt)
                c).1
      move true = IsWithin-move_into_maintenance services env nmr node_name n c held h
      move false = h

  Keeps-carry_out :
      (services : List ServiceClass) (env : Environment) (nmr : Request) (node : String)
      → Keeps (IsWithin cfg role) (carry_out cfg services env nmr node (lock_name node))
  unfolding carry_out
  Keeps-carry_out services env nmr node = Keeps-bind _ _ (Keeps-present cfg role node) λ _. record {
    at = λ c h.
        let acquired = IsWithin-acquire cfg role (lock_name node) c h in
        bind_at (IsWithin cfg role) _ _ c acquired λ r e.
          bind_quiet (IsWithin cfg role) _ _ _ refl acquired λ osdpl _.
            IsWithin-handle_acquired services env nmr node (lock_name node) osdpl _
              (acquire-Held cfg (lock_name node) c e) acquired;
  }

  pub Keeps-nmr_change_handler :
      (services : List ServiceClass) (env : Environment) (nmr : Request)
      → Keeps (IsWithin cfg role) (nmr_change_handler cfg services env nmr)
  unfolding nmr_change_handler
  Keeps-nmr_change_handler services env nmr = Keeps-bind _ _ (Keeps-gets _) λ concerned.
      Keeps-if concerned _ _
        (Keeps-carry_out services env nmr (maintenance_node_name nmr.node_name)) (Keeps-pure tt)

  Keeps-return_to_operation :
      (services : List ServiceClass) (env : Environment) (node n : String) (osdpl : Option String)
      → Keeps (IsWithin cfg role) (return_to_operation cfg services env node n osdpl)
  unfolding return_to_operation
  Keeps-return_to_operation services env node n none = Keeps-restore_lock cfg role n
  Keeps-return_to_operation services env node n (some osdpl) =
      search
        (
          keeps_rules,
          Keeps-is_maintenance,
          Keeps-wait_until cfg role,
          Keeps-each_service cfg role,
          Keeps-delete_nmr cfg role,
          Keeps-restore_lock cfg role,
        )
        depth 9

  pub Keeps-nmr_delete_handler :
      (services : List ServiceClass) (env : Environment) (nmr : Request)
      → Keeps (IsWithin cfg role) (nmr_delete_handler cfg services env nmr)
  unfolding nmr_delete_handler
  Keeps-nmr_delete_handler services env nmr =
      search (keeps_rules, Keeps-absent, Keeps-return_to_operation, Keeps-restore_lock cfg role)
        depth 9

  pub Keeps-node_change_handler :
      (services : List ServiceClass) (name : String)
      → Keeps (IsWithin cfg role) (node_change_handler cfg services name)
  unfolding node_change_handler
  Keeps-node_change_handler services name = search (keeps_rules, Keeps-absent, Keeps-present)

  pub Keeps-node_delete_handler :
      (services : List ServiceClass) (name : String)
      → Keeps (IsWithin cfg role) (node_delete_handler cfg services name)
  unfolding node_delete_handler
  Keeps-node_delete_handler services name = search (keeps_rules, Keeps-absent)

  pub Keeps-ndn_delete_handler :
      (services : List ServiceClass) (name : String)
      → Keeps (IsWithin cfg role) (ndn_delete_handler cfg services name)
  unfolding ndn_delete_handler
  Keeps-ndn_delete_handler services name = search (keeps_rules, Keeps-absent)

  Keeps-delete_node :
      (services : List ServiceClass) (env : Environment) (node : String) (osdpl : Option String)
      → Keeps (IsWithin cfg role) (delete_node cfg services env node osdpl)
  unfolding delete_node
  Keeps-delete_node services env node none = Keeps-pure tt
  Keeps-delete_node services env node (some osdpl) =
      search (keeps_rules, Keeps-each_service cfg role, Keeps-call_hook cfg role) depth 8

  pub Keeps-ndr_change_handler :
      (services : List ServiceClass) (env : Environment) (ndr : Request)
      → Keeps (IsWithin cfg role) (ndr_change_handler cfg services env ndr)
  unfolding ndr_change_handler
  Keeps-ndr_change_handler services env ndr =
      search (keeps_rules, Keeps-delete_node, Keeps-release_lock cfg role)

  Keeps-clean_up :
      (services : List ServiceClass) (env : Environment) (nwl : Lock) (osdpl : Option String)
      → Keeps (IsWithin cfg role) (clean_up cfg services env nwl osdpl)
  unfolding clean_up
  Keeps-clean_up services env nwl none = Keeps-pure tt
  Keeps-clean_up services env nwl (some osdpl) =
      search (keeps_rules, Keeps-each_service cfg role, Keeps-cleanup_node cfg role) depth 8

  pub Keeps-nwl_delete_handler :
      (services : List ServiceClass) (env : Environment) (nwl : Lock)
      → Keeps (IsWithin cfg role) (nwl_delete_handler cfg services env nwl)
  unfolding nwl_delete_handler
  Keeps-nwl_delete_handler services env nwl = search (keeps_rules, Keeps-clean_up)

  Keeps-hand_over_cluster :
      (services : List ServiceClass) (env : Environment) (n : String)
      → Keeps (IsWithin cfg role) (hand_over_cluster cfg services env n)
  unfolding hand_over_cluster
  Keeps-hand_over_cluster services env n =
      search
        (
          keeps_rules, Keeps-get_release, Keeps-set_error_message, Keeps-is_active, Keeps-set_state,
          Keeps-unset_error_message,
        )
        depth 20

  Keeps-hand_over :
      (services : List ServiceClass) (env : Environment) (osdpl : Option String)
      → Keeps (IsWithin cfg role) (hand_over cfg services env osdpl)
  unfolding hand_over
  Keeps-hand_over services env none = Keeps-pure tt
  Keeps-hand_over services env (some osdpl) = Keeps-hand_over_cluster services env (lock_name osdpl)

  pub Keeps-cmr_change_handler :
      (services : List ServiceClass) (env : Environment)
      → Keeps (IsWithin cfg role) (cmr_change_handler cfg services env)
  unfolding cmr_change_handler
  Keeps-cmr_change_handler services env = search (keeps_rules, Keeps-hand_over)

  Keeps-take_back :
      (services : List ServiceClass) (osdpl : Option String)
      → Keeps (IsWithin cfg role) (take_back cfg services osdpl)
  unfolding take_back
  Keeps-take_back services none = Keeps-pure tt
  Keeps-take_back services (some osdpl) =
      search (keeps_rules, Keeps-set_state, Keeps-unset_error_message)

  pub Keeps-cmr_delete_handler :
      (services : List ServiceClass) → Keeps (IsWithin cfg role) (cmr_delete_handler cfg services)
  unfolding cmr_delete_handler
  Keeps-cmr_delete_handler services = search (keeps_rules, Keeps-take_back)
