-- ===== src/Maintenance/Cap/Hooked.antt =====
-- The hooks of the services and the waits leave the number of nodes in maintenance.
use openstack_controller.Common.{String, Bool, List, [], ◌∷◌}
use openstack_controller.Kube.Node.{NodeRole}
use openstack_controller.Maintenance.Cluster.{Exec, Hook}
use openstack_controller.Maintenance.Lock.{Settings}
use openstack_controller.Maintenance.Keeps.{
  Keeps, Keeps-bind, Keeps-pure, Keeps-raise, Keeps-lift, keeps_rules, Keeps-if,
}
use openstack_controller.Maintenance.Hooks.{
  ServiceClass, Environment, call_hook, process_nmr, delete_nmr, cleanup_node, each_service,
  wait_until, release_lock, restore_lock, Scope,
}
use openstack_controller.Maintenance.Cap.Methods.{
  IsWithin, Keeps-set_state, Keeps-unset_error_message, Keeps-set_inactive,
}

module _ (cfg : Settings) (role : NodeRole) where
  pub Keeps-each_service :
      (act : String → Exec (Unit {0})) (services : List ServiceClass)
      → ((s : String) → Keeps (IsWithin cfg role) (act s))
      → Keeps (IsWithin cfg role) (each_service act services)
  unfolding each_service
  Keeps-each_service act [] k = Keeps-pure tt
  Keeps-each_service act (s ∷ rest) k =
      Keeps-bind _ _ (Keeps-if s.maintenance_api _ _ (k s.service) (Keeps-pure tt))
        (λ _. Keeps-each_service act rest k)

  pub Keeps-wait_until :
      {A : Type 0} (good : A → Bool) (polls : List A)
      → Keeps (IsWithin cfg role) (wait_until good polls)
  unfolding wait_until
  Keeps-wait_until good [] = Keeps-raise _
  Keeps-wait_until good (a ∷ polls) =
      Keeps-if (good a) _ _ (Keeps-pure tt) (Keeps-wait_until good polls)

  pub Keeps-call_hook :
      (env : Environment) (hook : Hook) (service node : String)
      → Keeps (IsWithin cfg role) (call_hook env hook service node)
  unfolding call_hook
  Keeps-call_hook env hook service node =
      Keeps-bind _ _ (record { at = λ c h. record { cap = h.cap; well_named = h.well_named } })
        (λ _. Keeps-lift _)

  pub Keeps-process_nmr :
      (env : Environment) (node : String) (scope : Scope) (service : String)
      → Keeps (IsWithin cfg role) (process_nmr env node scope service)
  unfolding process_nmr
  Keeps-process_nmr env node scope service = search (keeps_rules, Keeps-call_hook)

  pub Keeps-delete_nmr :
      (env : Environment) (node service : String)
      → Keeps (IsWithin cfg role) (delete_nmr env node service)
  unfolding delete_nmr
  Keeps-delete_nmr env node service = search (keeps_rules, Keeps-call_hook)

  pub Keeps-cleanup_node :
      (env : Environment) (node service : String)
      → Keeps (IsWithin cfg role) (cleanup_node env node service)
  unfolding cleanup_node
  Keeps-cleanup_node env node service = search (keeps_rules, Keeps-call_hook)

  pub Keeps-release_lock : (n : String) → Keeps (IsWithin cfg role) (release_lock n)
  unfolding release_lock
  Keeps-release_lock n = search (keeps_rules, Keeps-set_state, Keeps-unset_error_message)

  pub Keeps-restore_lock : (n : String) → Keeps (IsWithin cfg role) (restore_lock n)
  unfolding restore_lock
  Keeps-restore_lock n =
      search (keeps_rules, Keeps-set_inactive, Keeps-set_state, Keeps-unset_error_message)
