-- ===== src/Maintenance/Cap/Methods.antt =====
-- Every method of a lock leaves at most as many nodes of a role in maintenance as are allowed.
use openstack_controller.Common.{
  ◌==◌, find, All, ◌≤◌, String, ◌≡◌, refl, ap, Bool, true, false, ◌&&◌, Option, none, some, arith,
  nat_eq, string_eq,
}
use openstack_controller.Kube.Node.{NodeRole}
use openstack_controller.Maintenance.Cluster.{
  Cluster, Lock, Kind, node_workload, cluster_workload, LockState, LockInnerState, Message, locks,
  with_locks, update_named, modify, gets,
}
use openstack_controller.Maintenance.Lock.{
  Settings, get_max_parallel_by_role, reload, patch, set_state, set_release, set_inner_state,
  set_error_message, unset_error_message, is_active, is_maintenance, get_release, is_inner_active,
  absent, state_of, workload,
}
use openstack_controller.Maintenance.Keeps.{
  Keeps, Keeps-bind, keeps_rules, Keeps-reload, Keeps-gets, Keeps-pure, Keeps-raise,
}
use openstack_controller.Maintenance.Cap.{
  occupies, occupied, WellNamed, count-update_le, All-update, count-remove_le, All-remove,
  node_has_role,
}

-- At most the allowed number of nodes of the role are in maintenance.
pub record IsWithin (cfg : Settings) (role : NodeRole) (c : Cluster) : Type 0 where
  pub cap : occupied cfg.role_labels role c ≤ get_max_parallel_by_role cfg role
  pub well_named : All WellNamed c.node_locks

-- A write that puts no lock of that name into maintenance, and keeps what the name says.
pub record IsCalm (n : String) (f : Lock → Lock) : Type 0 where
  pub inner :
      (l : Lock) → is_inner_active (f l).inner_state ≡ true → is_inner_active l.inner_state ≡ true
  pub names : (l : Lock) → l.name ≡ n → WellNamed l → WellNamed (f l)
  pub same_node : (l : Lock) → l.name ≡ n → WellNamed l → (f l).node_name ≡ l.node_name
  pub same_controller :
      (l : Lock) → l.name ≡ n → WellNamed l → (f l).controller_name ≡ l.controller_name

and_mono :
    (a a' b b' c c' : Bool)
    → a ≡ a'
    → c ≡ c'
    → (b ≡ true → b' ≡ true)
    → (a && (b && c)) ≡ true
    → (a' && (b' && c')) ≡ true
and_mono a a' true b' c c' p q r h = rw (r refl) (ground arith)
and_mono a a' false b' c c' p q r h = ground arith

module _ (cfg : Settings) (role : NodeRole) where
  occupies-calm :
      (c : Cluster) (n : String) (f : Lock → Lock)
      → IsCalm n f
      → (l : Lock) → l.name ≡ n
      → WellNamed l
      → occupies cfg.role_labels c.nodes role (f l) ≡ true
      → occupies cfg.role_labels c.nodes role l ≡ true
  occupies-calm c n f calm l e w h =
      let same_role : node_has_role cfg.role_labels role
            (find (λ m. m.name == (f l).node_name) c.nodes)
          ≡ node_has_role cfg.role_labels role (find (λ m. m.name == l.node_name) c.nodes) =
        ap (λ t. node_has_role cfg.role_labels role (find (λ m. m.name == t) c.nodes))
          (calm.same_node l e w) in
      and_mono ((f l).controller_name == workload) (l.controller_name == workload)
        (is_inner_active (f l).inner_state) (is_inner_active l.inner_state) _ _
        (ap (λ t. t == workload) (calm.same_controller l e w)) same_role (calm.inner l) h

  Keeps-update :
      (k : Kind) (n : String) (f : Lock → Lock)
      → IsCalm n f
      → Keeps (IsWithin cfg role) (modify (λ c. with_locks k c (update_named n f (locks k c))))
  Keeps-update cluster_workload n f calm = record {
    at = λ c h. record { cap = h.cap; well_named = h.well_named };
  }
  Keeps-update node_workload n f calm = record {
    at = λ c h. record {
      cap = omega (
        arith,
        h.cap,
        count-update_le (occupies cfg.role_labels c.nodes role) n f c.node_locks h.well_named
            (occupies-calm c n f calm),
      );
      well_named =
          All-update (occupies cfg.role_labels c.nodes role) n f c.node_locks h.well_named
            calm.names;
    };
  }

  pub Keeps-patch :
      (k : Kind) (n : String) (f : Lock → Lock)
      → IsCalm n f
      → Keeps (IsWithin cfg role) (patch k n f)
  unfolding patch
  Keeps-patch k n f calm =
      Keeps-bind (reload k n) _ (Keeps-reload k n) (λ l. Keeps-update k n f calm)

  pub Keeps-absent : (k : Kind) (n : String) → Keeps (IsWithin cfg role) (absent k n)
  unfolding absent
  Keeps-absent cluster_workload n = record {
    at = λ c h. record { cap = h.cap; well_named = h.well_named };
  }
  Keeps-absent node_workload n = record {
    at = λ c h. record {
      cap =
          omega
            (arith, h.cap, count-remove_le (occupies cfg.role_labels c.nodes role) n c.node_locks);
      well_named = All-remove n c.node_locks h.well_named;
    };
  }

  pub Keeps-set_state :
      (k : Kind) (n : String) (s : LockState) → Keeps (IsWithin cfg role) (set_state k n s)
  unfolding set_state
  Keeps-set_state k n s =
      Keeps-patch k n (λ l. record l { state = some s })
        (record {
          inner = λ l h. h;
          names = λ l e w. w;
          same_node = λ l e w. refl;
          same_controller = λ l e w. refl;
        })

  pub Keeps-set_release : (k : Kind) (n r : String) → Keeps (IsWithin cfg role) (set_release k n r)
  unfolding set_release
  Keeps-set_release k n r =
      Keeps-patch k n (λ l. record l { release = some r })
        (record {
          inner = λ l h. h;
          names = λ l e w. w;
          same_node = λ l e w. refl;
          same_controller = λ l e w. refl;
        })

  pub Keeps-set_error_message :
      (k : Kind) (n : String) (m : Message) → Keeps (IsWithin cfg role) (set_error_message k n m)
  unfolding set_error_message
  Keeps-set_error_message k n m = Keeps-bind (gets (λ c. c.clock)) _ (Keeps-gets _) (λ now.
      Keeps-patch k n (λ l. record l { error_message = some (now, m) })
        (record {
          inner = λ l h. h;
          names = λ l e w. w;
          same_node = λ l e w. refl;
          same_controller = λ l e w. refl;
        }))

  pub Keeps-unset_error_message :
      (k : Kind) (n : String) → Keeps (IsWithin cfg role) (unset_error_message k n)
  unfolding unset_error_message
  Keeps-unset_error_message k n =
      Keeps-patch k n (λ l. record l { error_message = none })
        (record {
          inner = λ l h. h;
          names = λ l e w. w;
          same_node = λ l e w. refl;
          same_controller = λ l e w. refl;
        })

  pub Keeps-set_inactive :
      (k : Kind) (n : String)
      → Keeps (IsWithin cfg role) (set_inner_state k n LockInnerState.inactive)
  unfolding set_inner_state
  Keeps-set_inactive k n =
      Keeps-patch k n (λ l. record l { inner_state = some LockInnerState.inactive })
        (record {
          inner = λ l h. cc;
          names = λ l e w. w;
          same_node = λ l e w. refl;
          same_controller = λ l e w. refl;
        })

  Keeps-state_of : (o : Option LockState) → Keeps (IsWithin cfg role) (state_of o)
  Keeps-state_of none = Keeps-raise _
  Keeps-state_of (some s) = Keeps-pure _

  pub Keeps-is_active : (k : Kind) (n : String) → Keeps (IsWithin cfg role) (is_active k n)
  unfolding is_active
  Keeps-is_active k n = search (keeps_rules, Keeps-state_of)

  pub Keeps-is_maintenance :
      (k : Kind) (n : String) → Keeps (IsWithin cfg role) (is_maintenance k n)
  unfolding is_maintenance
  Keeps-is_maintenance k n = search keeps_rules

  pub Keeps-get_release : (k : Kind) (n : String) → Keeps (IsWithin cfg role) (get_release k n)
  unfolding get_release
  Keeps-get_release k n = search keeps_rules
