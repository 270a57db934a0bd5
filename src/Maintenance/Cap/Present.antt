-- ===== src/Maintenance/Cap/Present.antt =====
-- `present` puts no node into maintenance.
use openstack_controller.Maintenance.Cap.{occupies, All-snoc}
use openstack_controller.Maintenance.Keeps.{Keeps, keeps_rules, Keeps-bind, Keeps-gets}
use openstack_controller.Maintenance.Cluster.{
  cluster_workload, gets, LockState, Cluster, Kind, node_workload,
}
use openstack_controller.Maintenance.Lock.{
  Settings, merge_dummy, create, present, renew_release, post_dummy, lock_name, dummy, lock_exists,
}
use openstack_controller.Common.{
  count-append, after_char, String, refl, sym, ap, Bool, true, false, [], ◌∷◌, arith,
}
use openstack_controller.Kube.Node.{NodeRole}
use openstack_controller.Maintenance.Cap.Methods.{
  Keeps-set_release, IsWithin, IsCalm, Keeps-get_release, Keeps-set_state, Keeps-patch,
}

module _ (cfg : Settings) (role : NodeRole) where
  pub Keeps-renew_release :
      (k : Kind) (n : String) → Keeps (IsWithin cfg role) (renew_release cfg k n)
  unfolding renew_release
  Keeps-renew_release k n =
      search (keeps_rules, Keeps-get_release, Keeps-set_state, Keeps-set_release) depth 8

  -- Merging the dummy keeps the node and the controller, which the name fixes.
  merge_dummy-IsCalm :
      (c : Cluster) (name : String)
      → IsCalm (lock_name name) (merge_dummy (dummy node_workload (lock_name name) c))
  unfolding merge_dummy
  merge_dummy-IsCalm c name = record {
    inner = λ l h. h;
    names = λ l e w m e'. (refl, ap (after_char b'-') (sym e));
    same_node = λ l e w. rw (← e) (sym (w name e).1);
    same_controller = λ l e w. sym (w name e).0;
  }

  Keeps-create : (k : Kind) (n : String) → Keeps (IsWithin cfg role) (create k n)
  unfolding create
  Keeps-create cluster_workload n = record {
    at = λ c h. record { cap = h.cap; well_named = h.well_named };
  }
  Keeps-create node_workload n = record {
    at = λ c h. record {
      cap = ground (
        arith,
        h.cap,
        count-append (occupies cfg.role_labels c.nodes role) c.node_locks
            (dummy node_workload n c ∷ []),
      );
      well_named =
          All-snoc c.node_locks (dummy node_workload n c) h.well_named (λ m e. (refl, refl));
    };
  }

  Keeps-post_dummy :
      (name : String) (old : Bool)
      → Keeps (IsWithin cfg role) (post_dummy node_workload (lock_name name) old)
  unfolding post_dummy
  Keeps-post_dummy name true = record {
    at = λ c h.
        (Keeps-patch cfg role node_workload (lock_name name) _ (merge_dummy-IsCalm c name)).at c h;
  }
  Keeps-post_dummy name false = record {
    at = λ c h.
        (Keeps-bind _ _ (Keeps-create node_workload (lock_name name))
            (λ _. Keeps-set_state cfg role node_workload (lock_name name) LockState.active)).at
          c h;
  }

  -- `present` on the lock of a node.
  pub Keeps-present :
      (name : String) → Keeps (IsWithin cfg role) (present cfg node_workload (lock_name name))
  unfolding present
  Keeps-present name =
      Keeps-bind (gets (lock_exists node_workload (lock_name name))) _ (Keeps-gets _) λ old.
        Keeps-bind _ _ (Keeps-post_dummy name old)
          (λ _. Keeps-renew_release node_workload (lock_name name))
