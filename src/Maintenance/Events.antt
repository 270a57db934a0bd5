-- ===== src/Maintenance/Events.antt =====
-- Runs: the events that the controller's maintenance and node handlers get, one after the other, and
-- what else happens in the cluster between them.
use openstack_controller.Common.{
  ◌==◌, select, ℕ, ◌+◌, String, Bool, not, List, [], ◌∷◌, nat_eq, string_eq,
}
use openstack_controller.Kube.Node.{Node}
use openstack_controller.Maintenance.Cluster.{Cluster, Lock, Exec, modify}
use openstack_controller.Maintenance.Lock.{Settings}
use openstack_controller.Maintenance.Handlers.{
  nmr_change_handler, nmr_delete_handler, ndr_change_handler, nwl_delete_handler,
  ndn_delete_handler, node_change_handler, node_delete_handler, cmr_change_handler,
  cmr_delete_handler,
}
use openstack_controller.Maintenance.Hooks.{ServiceClass, Request, Environment}

pub data Event : Type 0 where
  nmr_changed nmr_deleted ndr_changed : Environment → Request → Event
  nwl_deleted : Environment → Lock → Event
  ndn_deleted node_changed node_deleted : (node : String) → Event
  cmr_changed : Environment → Event
  cmr_deleted : Event
  -- a node leaves the API server
  node_left : (node : String) → Event
  time_passes : ℕ → Event
  deployment_state : (osdpls : List String) (applied : Bool) → Event

abbrev pub forget_node : String → List Node → List Node
forget_node name = select (λ n. not (n.name == name))

module _ (cfg : Settings) (services : List ServiceClass) where
  unfoldable pub handle : Event → Exec (Unit {0})
  handle (nmr_changed env nmr) = nmr_change_handler cfg services env nmr
  handle (nmr_deleted env nmr) = nmr_delete_handler cfg services env nmr
  handle (ndr_changed env ndr) = ndr_change_handler cfg services env ndr
  handle (nwl_deleted env nwl) = nwl_delete_handler cfg services env nwl
  handle (ndn_deleted node) = ndn_delete_handler cfg services node
  handle (node_changed node) = node_change_handler cfg services node
  handle (node_deleted node) = node_delete_handler cfg services node
  handle (cmr_changed env) = cmr_change_handler cfg services env
  handle cmr_deleted = cmr_delete_handler cfg services
  handle (node_left node) = modify (λ c. record c { nodes = forget_node node c.nodes })
  handle (time_passes t) = modify (λ c. record c { clock = c.clock + t })
  handle (deployment_state osdpls applied) =
      modify (λ c. record c { osdpls = osdpls; applied = applied })

  -- A handler that raises ends only itself: the framework calls it again later.
  unfoldable pub run : List Event → Cluster → Cluster
  run [] c = c
  run (e ∷ events) c = run events (handle e c).1
