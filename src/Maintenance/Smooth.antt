-- ===== src/Maintenance/Smooth.antt =====
-- Where nothing outside fails, the handlers of a NodeMaintenanceRequest return.
use mathlib.Core.List.{reverse}
use openstack_controller.Maintenance.Outcome.{is_kept, IsRestored, nmr_delete_handler-IsRestored}
use openstack_controller.Maintenance.Lock.{safe_get_node, Settings, lock_name, absent, node_exists}
use openstack_controller.Maintenance.Total.{
  Total-wait_until, Total, Total-bind, Total-restore_lock, HasState, Total-call_hook,
  Total-is_maintenance, Total-if, Total-lift, Total-pure, Total-each,
}
use openstack_controller.Maintenance.Handlers.{nmr_delete_handler, return_to_operation}
use openstack_controller.Common.{
  if◌then◌else◌, any, String, ◌≡◌, Bool, true, false, not, ◌||◌, Option, none, some, List,
}
use openstack_controller.Kube.Node.{Node, NodeRole, has_os_role}
use openstack_controller.Maintenance.Cluster.{Cluster, Lock, node_workload, Result, ok, ◌>>=◌, Hook}
use openstack_controller.Maintenance.Hooks.{
  is_reboot_possible, Environment, ServiceClass, Request, process_nmr, delete_nmr, Scope,
  pods_ready, maintenance_node_name, restore_lock, get_osdpl,
}

-- The spec renders, no hook raises, no service objects, and the node and its pods get ready.
pub record IsSmooth (env : Environment) : Type 0 where
  pub spec : env.mspec ≡ ok tt
  pub hooks : (hook : Hook) (service node : String) → env.hook hook service node ≡ ok tt
  pub consent :
      (service : String) (node : Node) (held : NodeRole → List Lock)
      → env.can_handle_nmr service node held ≡ ok true
  pub node_ready : any (λ b. b) env.node_polls ≡ true
  pub pods_get_ready : any pods_ready env.pod_polls ≡ true

module _ (env : Environment) (smooth : IsSmooth env) (n : String) where
  Total-delete_nmr : (node service : String) → Total n (delete_nmr env node service)
  unfolding delete_nmr
  Total-delete_nmr node service =
      Total-bind _ _ (Total-call_hook n env _ service node (smooth.hooks _ service node))
        (λ _. Total-call_hook n env _ service node (smooth.hooks _ service node))

  pub Total-process_nmr :
      (node : String) (scope : Scope) (service : String)
      → Total n (process_nmr env node scope service)
  unfolding process_nmr
  Total-process_nmr node scope service =
      Total-bind _ _ (Total-call_hook n env _ service node (smooth.hooks _ service node)) (λ _.
        Total-if (is_reboot_possible scope) _ _
          (Total-call_hook n env _ service node (smooth.hooks _ service node)) (Total-pure tt))

  Total-return :
      (cfg : Settings) (services : List ServiceClass) (node : String) (osdpl : Option String)
      → Total n (return_to_operation cfg services env node n osdpl)
  unfolding return_to_operation
  Total-return cfg services node none = Total-restore_lock n
  Total-return cfg services node (some osdpl) = Total-bind _ _ (Total-is_maintenance n) λ held.
      Total-bind _ _
        (Total-if held _ _
          (Total-bind _ _ (Total-wait_until n _ env.node_polls smooth.node_ready) λ _.
            Total-bind _ _ (Total-wait_until n _ env.pod_polls smooth.pods_get_ready) λ _.
              Total-bind _ _ (Total-lift env.mspec tt smooth.spec)
                λ _. Total-each n _ (reverse services) (Total-delete_nmr node))
          (Total-pure tt))
        (λ _. Total-restore_lock n)

pub unit_ok : {r : Result (Unit {0})} → ((a : Unit {0}) × (r ≡ ok a)) → r ≡ ok tt
unit_ok (a, e) = e

choose_ok :
    (cfg : Settings) (services : List ServiceClass) (env : Environment) (node n : String)
    (osdpl : Option String) (found required : Bool) (c : Cluster)
    → IsSmooth env
    → HasState n c
    → (not found || required) ≡ true
    → ((if found
          then (if required
              then return_to_operation cfg services env node n osdpl
              else absent node_workload n)
          else restore_lock n)
        c).0
      ≡ ok tt
choose_ok cfg services env node n osdpl true true c smooth h k =
    unit_ok ((Total-return env smooth n cfg services node osdpl).at c h).0
choose_ok cfg services env node n osdpl true false c smooth h k = cc
choose_ok cfg services env node n osdpl false required c smooth h k =
    unit_ok ((Total-restore_lock n).at c h).0

returned :
    (cfg : Settings) (services : List ServiceClass) (env : Environment) (nmr : Request)
    (c : Cluster)
    → IsSmooth env
    → HasState (lock_name (maintenance_node_name nmr.node_name)) c
    → is_kept cfg (maintenance_node_name nmr.node_name) c ≡ true
    → (nmr_delete_handler cfg services env nmr c).0 ≡ ok tt
unfolding nmr_delete_handler ◌>>=◌
returned cfg services env nmr c smooth h kept =
    let node = maintenance_node_name nmr.node_name in
    choose_ok cfg services env node (lock_name node) (get_osdpl c) (node_exists node c)
      (has_os_role cfg.role_labels (safe_get_node node c)) c smooth h kept

-- Where nothing outside fails and the node's lock is there, the delete handler returns for a node that
-- is gone or still carries OpenStack, and has given the node back to OpenStack.
pub nmr_delete_handler-returns :
    (cfg : Settings) (services : List ServiceClass) (env : Environment) (nmr : Request)
    (c : Cluster)
    → IsSmooth env
    → HasState (lock_name (maintenance_node_name nmr.node_name)) c
    → is_kept cfg (maintenance_node_name nmr.node_name) c ≡ true
    → ((nmr_delete_handler cfg services env nmr c).0 ≡ ok tt)
      × IsRestored
          (lock_name (maintenance_node_name nmr.node_name))
          (nmr_delete_handler cfg services env nmr c).1
nmr_delete_handler-returns cfg services env nmr c smooth h kept =
    let r = returned cfg services env nmr c smooth h kept in
    (r, nmr_delete_handler-IsRestored cfg services env nmr c kept r)
