-- ===== src/Maintenance/Holding.antt =====
-- The change handler, once it holds the internal lock, keeps it.
use openstack_controller.Kube.Node.{Node}
use openstack_controller.Maintenance.Returns.{patch-found, find-update, Keeps-each}
use openstack_controller.Maintenance.Handlers.{move_into_maintenance}
use openstack_controller.Maintenance.Hooks.{
  process_nmr, call_hook, Environment, Scope, ServiceClass, Request, is_reboot_possible,
  each_service,
}
use openstack_controller.Maintenance.Lock.{set_inner_state, set_error_message, Settings}
use openstack_controller.Common.{if◌then◌else◌, String, refl, Bool, true, false, some, List}
use openstack_controller.Maintenance.Cluster.{
  Cluster, node_workload, LockInnerState, ◌>>◌, raise, Message, Hook, services_block_nmr, temporary,
}
use openstack_controller.Maintenance.Keeps.{
  bind_at, Keeps-if, Keeps-lift, Keeps, bind_quiet, Keeps-bind, Keeps-pure, Keeps-raise,
}
use openstack_controller.Maintenance.Cap.Held.{Held, set_inner-Held, ask_services-state}

Held-call_hook :
    (n : String) (env : Environment) (hook : Hook) (service node : String)
    → Keeps (Held n) (call_hook env hook service node)
unfolding call_hook
Held-call_hook n env hook service node =
    Keeps-bind _ _ (record { at = λ c h. h }) (λ _. Keeps-lift _)

Held-process_nmr :
    (n : String) (env : Environment) (node : String) (scope : Scope) (service : String)
    → Keeps (Held n) (process_nmr env node scope service)
unfolding process_nmr
Held-process_nmr n env node scope service =
    Keeps-bind _ _ (Held-call_hook n env _ service node) (λ _.
      Keeps-if (is_reboot_possible scope) _ _ (Held-call_hook n env _ service node) (Keeps-pure tt))

Held-set_error : (n : String) (m : Message) → Keeps (Held n) (set_error_message node_workload n m)
unfolding set_error_message
Held-set_error n m = record {
  at = λ c (l, e, active).
      bind_quiet (Held n) _ _ c refl (l, e, active)
        λ now _. rw (patch-found n _ c e) (
          record l { error_message = some (now, m) },
          find-update n _ c.node_locks (λ k. refl) e,
          active,
        );
}

pub Held-move :
    (cfg : Settings) (services : List ServiceClass) (env : Environment) (nmr : Request)
    (node n : String) (c : Cluster)
    → Held n c
    → Held n (move_into_maintenance cfg services env nmr node n c).1
unfolding move_into_maintenance
Held-move cfg services env nmr node n c h = bind_quiet (Held n) _ _ c refl h λ k _.
    bind_quiet (Held n) _ _ c refl h λ held _.
      bind_quiet (Held n) _ _ c (ask_services-state env.can_handle_nmr k held services c) h
        λ allowed _. move k allowed
  where
    entered : Held n (set_inner_state node_workload n LockInnerState.active c).1
    entered = set_inner-Held n c h.1

    move :
        (k : Node) (allowed : Bool)
        → Held n
            ((if allowed
                then (do
                  set_inner_state node_workload n LockInnerState.active
                  each_service (process_nmr env k.name nmr.scope) services)
                else (do
                  set_error_message node_workload n (services_block_nmr k.name)
                  raise (temporary (services_block_nmr k.name))))
              c).1
    move k true =
        bind_at (Held n) _ _ c entered
          (λ _ _. (Keeps-each _ services (Held-process_nmr n env k.name nmr.scope)).at _ entered)
    move k false = (Keeps-bind _ _ (Held-set_error n _) (λ _. Keeps-raise _)).at c h
