-- ===== src/Maintenance/Cap/Runs.antt =====
-- The limit on nodes in maintenance over whole runs.
use openstack_controller.Common.{
  ◌==◌, eq_iff, if◌then◌else◌, length, count, find, All, ◌≤◌, String, ◌≡◌, Bool, true, false, ◌&&◌,
  none, List, [], ◌∷◌, arith, nat_eq, string_eq,
}
use openstack_controller.Kube.Node.{Node, NodeRole, RoleLabels}
use openstack_controller.Maintenance.Cluster.{Cluster, Lock}
use openstack_controller.Maintenance.Lock.{
  Settings, maintenance_locks, get_max_parallel_by_role, is_inner_active, workload,
}
use openstack_controller.Maintenance.Hooks.{ServiceClass}
use openstack_controller.Maintenance.Events.{
  Event, nmr_changed, nmr_deleted, ndr_changed, nwl_deleted, ndn_deleted, node_changed,
  node_deleted, cmr_changed, cmr_deleted, node_left, time_passes, deployment_state, forget_node,
  handle, run,
}
use openstack_controller.Maintenance.Keeps.{Keeps}
use openstack_controller.Maintenance.Cap.{
  length-maintenance_locks, WellNamed, occupies, node_has_role,
}
use openstack_controller.Maintenance.Cap.Methods.{IsWithin}
use openstack_controller.Maintenance.Cap.Handling.{
  Keeps-nmr_change_handler, Keeps-nmr_delete_handler, Keeps-ndr_change_handler,
  Keeps-nwl_delete_handler, Keeps-ndn_delete_handler, Keeps-node_change_handler,
  Keeps-node_delete_handler, Keeps-cmr_change_handler, Keeps-cmr_delete_handler,
}

find-forget :
    (gone name : String) (nodes : List Node)
    → find (λ n. n.name == name) (forget_node gone nodes)
      ≡ (if gone == name then none else find (λ n. n.name == name) nodes)
find-forget gone name [] = ground arith
find-forget gone name (n ∷ nodes) =
    ground
      (arith, find-forget gone name nodes, eq_iff n.name gone, eq_iff n.name name, eq_iff gone name)

occupies-forget :
    (labels : RoleLabels) (gone : String) (nodes : List Node) (role : NodeRole) (l : Lock)
    → occupies labels (forget_node gone nodes) role l ≡ true
    → occupies labels nodes role l ≡ true
occupies-forget labels gone nodes role l h =
    split (gone == l.node_name) (rw (find-forget gone l.node_name nodes) at h)
  where
    split :
        (b : Bool)
        → ((l.controller_name == workload)
            && (is_inner_active l.inner_state
                && node_has_role labels role
                    (if b then none else find (λ n. n.name == l.node_name) nodes)))
          ≡ true
        → occupies labels nodes role l ≡ true
    split true t = ground (arith, t)
    split false t = t

count_mono :
    (p q : Lock → Bool) (ls : List Lock)
    → ((l : Lock) → p l ≡ true → q l ≡ true)
    → count p ls ≤ count q ls
count_mono p q [] h = omega arith
count_mono p q (l ∷ ls) h = ground (arith, h l, count_mono p q ls h)

module _ (cfg : Settings) (services : List ServiceClass) (role : NodeRole) where
  Keeps-node_left :
      (node : String) → Keeps (IsWithin cfg role) (handle cfg services (node_left node))
  unfolding handle
  Keeps-node_left node = record {
    at = λ c h. record {
      cap = omega (
        arith,
        h.cap,
        count_mono _ _ c.node_locks (occupies-forget cfg.role_labels node c.nodes role),
      );
      well_named = h.well_named;
    };
  }

  Keeps-handle : (e : Event) → Keeps (IsWithin cfg role) (handle cfg services e)
  unfolding handle
  Keeps-handle (nmr_changed env nmr) = Keeps-nmr_change_handler cfg role services env nmr
  Keeps-handle (nmr_deleted env nmr) = Keeps-nmr_delete_handler cfg role services env nmr
  Keeps-handle (ndr_changed env ndr) = Keeps-ndr_change_handler cfg role services env ndr
  Keeps-handle (nwl_deleted env nwl) = Keeps-nwl_delete_handler cfg role services env nwl
  Keeps-handle (ndn_deleted node) = Keeps-ndn_delete_handler cfg role services node
  Keeps-handle (node_changed node) = Keeps-node_change_handler cfg role services node
  Keeps-handle (node_deleted node) = Keeps-node_delete_handler cfg role services node
  Keeps-handle (cmr_changed env) = Keeps-cmr_change_handler cfg role services env
  Keeps-handle cmr_deleted = Keeps-cmr_delete_handler cfg role services
  Keeps-handle (node_left node) = Keeps-node_left node
  Keeps-handle (time_passes t) = record {
    at = λ c h. record { cap = h.cap; well_named = h.well_named };
  }
  Keeps-handle (deployment_state osdpls applied) = record {
    at = λ c h. record { cap = h.cap; well_named = h.well_named };
  }

  IsWithin-run :
      (events : List Event) (c : Cluster)
      → IsWithin cfg role c
      → IsWithin cfg role (run cfg services events c)
  unfolding run
  IsWithin-run [] c h = h
  IsWithin-run (e ∷ events) c h =
      IsWithin-run events (handle cfg services e c).1 ((Keeps-handle e).at c h)

-- From a cluster whose locks of nodes are well named and of whose nodes at most the allowed number
-- of a role are in maintenance, no sequence of events, with whatever answers and failures of the
-- services, leads to a cluster where more nodes of that role are in maintenance.
pub length-maintenance_locks-run :
    (cfg : Settings) (services : List ServiceClass) (role : NodeRole) (events : List Event)
    (c : Cluster)
    → All WellNamed c.node_locks
    → length (maintenance_locks cfg c role) ≤ get_max_parallel_by_role cfg role
    → length (maintenance_locks cfg (run cfg services events c) role)
      ≤ get_max_parallel_by_role cfg role
length-maintenance_locks-run cfg services role events c named within =
    let start : IsWithin cfg role c = record {
      cap = omega (arith, within, length-maintenance_locks cfg c role);
      well_named = named;
    } in
    let end = IsWithin-run cfg services role events c start in
    omega (arith, end.cap, length-maintenance_locks cfg (run cfg services events c) role)
