-- ===== src/Maintenance/Taken.antt =====
-- Where nothing outside fails and there is room, the change handler of a NodeMaintenanceRequest returns.
use openstack_controller.Maintenance.Outcome.{
  IsReleased, nmr_change_handler-concerned, nmr_change_handler-IsReleased,
}
use openstack_controller.Maintenance.Cap.Acquire.{acquire-found}
use openstack_controller.Maintenance.Handlers.{
  nmr_change_handler, handle_acquired, move_into_maintenance, carry_out, is_concerned,
}
use openstack_controller.Maintenance.Total.{
  bind-Total, KeepsState, Total, Total-patch, Total-bind, Total-pure, Total-gets,
  Total-release_lock, Total-set_inner_state, Total-lift, Total-each, Total-if, HasState,
}
use openstack_controller.Maintenance.Lock.{
  can_handle_nmr, defer_nmr, post_dummy, merge_dummy, is_active, present, Settings, renew_release,
  reload, dummy, get_release, lock_exists, is_release, set_state, set_release,
  acquire_internal_lock, set_inner_state, is_inner_active, lock_name,
}
use openstack_controller.Common.{
  ◌==◌, eq_iff, if◌then◌else◌, String, ◌≡◌, refl, ap, ◌∙◌, Bool, true, false, not, ◌&&◌, Option,
  none, some, List, [], ◌∷◌, nat_eq, string_eq,
}
use openstack_controller.Kube.Node.{Node, NodeRole}
use openstack_controller.Maintenance.Cluster.{
  ◌>>◌, Cluster, Lock, node_workload, LockState, LockInnerState, Exec, ok, ◌>>=◌, find_lock, pure,
  lift,
}
use openstack_controller.Maintenance.Hooks.{
  Environment, ServiceClass, Request, ask_services, get_osdpl, maintenance_node_name,
}
use openstack_controller.Maintenance.Smooth.{IsSmooth, Total-process_nmr, unit_ok}

module _ (n : String) where
  merge_dummy-KeepsState : (d : Lock) → KeepsState (merge_dummy d)
  unfolding merge_dummy
  merge_dummy-KeepsState d l = (refl, λ h. h)

  renew_release-unset :
      (cfg : Settings) → cfg.cluster_release ≡ "" → renew_release cfg node_workload n ≡ pure tt
  unfolding renew_release
  renew_release-unset cfg none_set =
      split (cfg.cluster_release == "") ((eq_iff cfg.cluster_release "").1 none_set)
    where
      split :
          (b : Bool)
          → b ≡ true
          → (if b then pure tt else (do
            r ← get_release node_workload n
            if is_release r cfg.cluster_release then pure tt else (do
              set_state node_workload n LockState.active
              set_release node_workload n cfg.cluster_release)))
            ≡ pure tt
      split true e = refl
      split false e = cc

  present-found :
      (cfg : Settings) (c : Cluster) {l : Lock}
      → cfg.cluster_release ≡ ""
      → find_lock node_workload n c ≡ some l
      → present cfg node_workload n c ≡ (post_dummy node_workload n true >>= λ _. pure tt) c
  unfolding present ◌>>=◌
  present-found cfg c none_set e =
      let there : lock_exists node_workload n c ≡ true =
        ap (λ o. elim o [ none ↦ false | some k ↦ true ]) e in
      ap (λ b. (post_dummy node_workload n b >>= λ _. renew_release cfg node_workload n) c) there
      ∙ ap (λ (m : Exec (Unit {0})). (post_dummy node_workload n true >>= λ _. m) c)
          (renew_release-unset cfg none_set)

  Total-post : Total n (post_dummy node_workload n true)
  unfolding post_dummy
  Total-post = record {
    at = λ c h. (Total-patch n _ (merge_dummy-KeepsState (dummy node_workload n c))).at c h;
  }

  Total-present :
      (cfg : Settings) → cfg.cluster_release ≡ "" → Total n (present cfg node_workload n)
  Total-present cfg none_set = record {
    at = λ c h.
        rw (present-found cfg c none_set h.1)
          ((Total-bind _ _ Total-post (λ _. Total-pure tt)).at c h);
  }

  Total-is_active : Total n (is_active node_workload n)
  unfolding is_active reload ◌>>=◌
  Total-is_active = record { at = λ c (l, e, s). rw (e, s.1, reload) ((_, refl), (l, e, s)) }

ask-agrees :
    (env : Environment) (node : Node) (held : NodeRole → List Lock) (services : List ServiceClass)
    → IsSmooth env
    → (c : Cluster) → ask_services env.can_handle_nmr node held services c ≡ (ok true, c)
unfolding ask_services ◌>>=◌
ask-agrees env node held [] smooth c = refl
ask-agrees env node held (s ∷ rest) smooth c =
    split s.maintenance_api (ask-agrees env node held rest smooth c)
  where
    split :
        (b : Bool)
        → ask_services env.can_handle_nmr node held rest c ≡ (ok true, c)
        → ((if b then lift (env.can_handle_nmr s.service node held) else pure true) >>= λ answer.
              (ask_services env.can_handle_nmr node held rest >>= λ others.
              pure (answer && others)))
            c
          ≡ (ok true, c)
    split true ih = rw (smooth.consent s.service node held, ih) refl
    split false ih = rw ih refl

module _ (cfg : Settings) (services : List ServiceClass) (env : Environment) (smooth : IsSmooth env)
    (n : String) where
  Total-ask :
      (node : Node) (held : NodeRole → List Lock) (act : Exec (Unit {0})) (other : Exec (Unit {0}))
      → Total n act
      → Total n (
          ask_services env.can_handle_nmr node held services >>= λ allowed.
          if allowed then act else other)
  unfolding ◌>>=◌
  Total-ask node held act other t = record {
    at = λ c h. rw (ask-agrees env node held services smooth c) (t.at c h);
  }

  Total-move :
      (nmr : Request) (node : String) → Total n (move_into_maintenance cfg services env nmr node n)
  unfolding move_into_maintenance
  Total-move nmr node = Total-bind _ _ (Total-gets _) λ k. Total-bind _ _ (Total-gets _) λ held.
      Total-ask k held _ _ (
        Total-bind _ _ (Total-set_inner_state n _)
          (λ _. Total-each n _ services (Total-process_nmr env smooth n k.name nmr.scope)))

  Total-acquired :
      (nmr : Request) (node : String) (osdpl : Option String)
      → Total n (handle_acquired cfg services env nmr node n osdpl)
  unfolding handle_acquired
  Total-acquired nmr node none = Total-release_lock n
  Total-acquired nmr node (some osdpl) = Total-bind _ _ (Total-lift env.mspec tt smooth.spec) λ _.
      Total-bind _ _ (Total-is_active n) λ active.
        Total-bind _ _ (Total-if active _ _ (Total-move nmr node) (Total-pure tt))
          (λ _. Total-release_lock n)

acquired_ok :
    (cfg : Settings) (n : String) (c : Cluster)
    → HasState n c
    → can_handle_nmr cfg c ≡ true
    → ((a : Unit {0}) × ((acquire_internal_lock cfg n c).0 ≡ ok a))
      × HasState n (acquire_internal_lock cfg n c).1
acquired_ok cfg n c (l, e, s) room =
    rw (acquire-found cfg n c l e)
      (enter (is_inner_active l.inner_state) (can_handle_nmr cfg c) room)
  where
    enter :
        (held room : Bool)
        → room ≡ true
        → ((a : Unit {0}) × (((if not held && not room
                  then defer_nmr n l
                  else set_inner_state node_workload n LockInnerState.active)
                c).0
              ≡ ok a))
          × HasState n
              ((if not held && not room
                  then defer_nmr n l
                  else set_inner_state node_workload n LockInnerState.active)
                c).1
    enter true true r = (Total-set_inner_state n _).at c (l, e, s)
    enter true false r = cc
    enter false true r = (Total-set_inner_state n _).at c (l, e, s)
    enter false false r = cc

carried_out :
    (cfg : Settings) (services : List ServiceClass) (env : Environment) (nmr : Request)
    (node n : String) (c : Cluster)
    → IsSmooth env
    → cfg.cluster_release ≡ ""
    → HasState n c
    → can_handle_nmr cfg (present cfg node_workload n c).1 ≡ true
    → (carry_out cfg services env nmr node n c).0 ≡ ok tt
unfolding carry_out
carried_out cfg services env nmr node n c smooth none_set h room =
    let (e1, h1) = (Total-present n cfg none_set).at c h in
    let (e2, h2) = acquired_ok cfg n (present cfg node_workload n c).1 h1 room in
    unit_ok (
      bind-Total n _ _ c e1 (
        bind-Total n _ _ (present cfg node_workload n c).1 e2
          ((Total-bind _ _ (Total-gets get_osdpl)
              (λ osdpl. Total-acquired cfg services env smooth n nmr node osdpl)).at
            _ h2).0))

-- Where nothing outside fails, no cluster release is set and the node's lock is there and has a state,
-- and there is room for one more node once the lock is brought up to date, the change handler returns for
-- a node that exists and carries OpenStack, and has released the node.
pub nmr_change_handler-returns :
    (cfg : Settings) (services : List ServiceClass) (env : Environment) (nmr : Request)
    (c : Cluster)
    → IsSmooth env
    → cfg.cluster_release ≡ ""
    → HasState (lock_name (maintenance_node_name nmr.node_name)) c
    → can_handle_nmr cfg
        (present cfg node_workload (lock_name (maintenance_node_name nmr.node_name)) c).1
      ≡ true
    → is_concerned cfg services (maintenance_node_name nmr.node_name) c ≡ true
    → ((nmr_change_handler cfg services env nmr c).0 ≡ ok tt)
      × IsReleased
          (lock_name (maintenance_node_name nmr.node_name))
          (nmr_change_handler cfg services env nmr c).1
nmr_change_handler-returns cfg services env nmr c smooth none_set h room concerned =
    let node = maintenance_node_name nmr.node_name in
    let r =
      ap (λ p. p.0) (nmr_change_handler-concerned cfg services env nmr c concerned)
      ∙ carried_out cfg services env nmr node (lock_name node) c smooth none_set h room in
    (r, nmr_change_handler-IsReleased cfg services env nmr c concerned r)
