-- ===== src/Deployment/Succeeds.antt =====
-- The deployment handlers go on only from steps that succeeded.
use openstack_controller.Deployment.Rounds.{outcome, all_settled, any_permanent, run_task-outcomes}
use openstack_controller.Deployment.Tasks.{
  Ending, returned, permanent_error, other_error, is_permanent, is_retriable,
}
use openstack_controller.Deployment.Tasks.{Task, run_task}
use openstack_controller.Deployment.Handle.{
  handle_services, upgrade_services, rotate_group, handle, check_handling_allowed, bring_about,
  Deployment, rotate_credentials, rotate_service_secret, Reason, Group, rotate_if_changed,
}
use openstack_controller.Common.{
  all, any, if◌then◌else◌, ℕ, zero, String, ◌≡◌, refl, sym, ap, ◌∙◌, subst, Bool, true, false, not,
  ◌&&◌, ◌||◌, none, some, List, [], ◌∷◌, ◌++◌,
}
use openstack_controller.Deployment.Steps.{
  Status, Step, set_osdpl_status, start_tasks, Error, Answer, done, raised, Trace, Environment,
  Exec, pure, run_tasks, continue, ◌>>◌, each, step, answer_of, raise, permanent,
}

abbrev pub is_returned : Ending → Bool
is_returned returned = true
is_returned permanent_error = false
is_returned other_error = false

-- Tasks that are settled and do not fail for good return.
all-returned :
    (end : Task → Ending) (tasks : List Task)
    → all (λ t. not (is_retriable (end t))) tasks ≡ true
    → any (λ t. is_permanent (end t)) tasks ≡ false
    → all (λ t. is_returned (end t)) tasks ≡ true
all-returned end [] settled none_fails = refl
all-returned end (t ∷ tasks) settled none_fails =
    split (end t) settled none_fails (all-returned end tasks)
  where
    split :
        (e : Ending)
        → (not (is_retriable e) && all (λ s. not (is_retriable (end s))) tasks) ≡ true
        → (is_permanent e || any (λ s. is_permanent (end s)) tasks) ≡ false
        → (all (λ s. not (is_retriable (end s))) tasks ≡ true
            → any (λ s. is_permanent (end s)) tasks ≡ false
            → all (λ s. is_returned (end s)) tasks ≡ true)
        → (is_returned e && all (λ s. is_returned (end s)) tasks) ≡ true
    split returned a b later = later a b
    split permanent_error a b later = cc
    split other_error a b later = cc

module _ (env : Environment) where
  -- A step has succeeded that was taken after the others. For tasks it means that every one of them,
  -- run for itself until it is no reason to retry, returns.
  abbrev pub HasSucceeded : Step → Trace → Type 0
  HasSucceeded (start_tasks tasks) trace =
      all (λ t. is_returned (outcome (env.ending trace) env.fuel zero t)) tasks ≡ true
  HasSucceeded s trace = env.answer trace s ≡ done

  -- All steps have succeeded.
  abbrev pub Succeeded : Trace → Type 0
  Succeeded [] = Unit {0}
  Succeeded (s ∷ trace) = HasSucceeded s trace × Succeeded trace

  abbrev pub but_latest : Trace → Trace
  but_latest [] = []
  but_latest (s ∷ trace) = trace

  but_latest-Succeeded : (trace : Trace) → Succeeded trace → Succeeded (but_latest trace)
  but_latest-Succeeded [] h = tt
  but_latest-Succeeded (s ∷ trace) h = h.1

  abbrev Ended : Answer → Trace → Type 0
  Ended done trace = Succeeded trace
  Ended (raised e) trace = Succeeded (but_latest trace)

  -- Tasks are answered for by `done` only where all of them return.
  answer_of-done :
      (trace : Trace) (tasks : List Task)
      → answer_of env (run_task (env.ending trace) env.fuel tasks) ≡ done
      → HasSucceeded (start_tasks tasks) trace
  answer_of-done trace tasks e =
      split (all_settled (env.ending trace) env.fuel zero tasks) refl
        (any_permanent (env.ending trace) env.fuel zero tasks) refl
        (ap (answer_of env) (sym (run_task-outcomes (env.ending trace) env.fuel tasks)) ∙ e)
    where
      split :
          (a : Bool)
          → all_settled (env.ending trace) env.fuel zero tasks ≡ a
          → (b : Bool) → any_permanent (env.ending trace) env.fuel zero tasks ≡ b
          → answer_of env (if a then some b else none) ≡ done
          → HasSucceeded (start_tasks tasks) trace
      split true f false g h = all-returned (outcome (env.ending trace) env.fuel zero) tasks f g
      split true f true g h = cc
      split false f b g h = cc

  record Succeeds (m : Exec) : Type 0 where
    pub at : (trace : Trace) → Succeeded trace → Ended (m trace).0 (m trace).1

  Succeeds-pure : Succeeds pure
  Succeeds-pure = record { at = λ trace h. h }

  Succeeds-raise : (e : Error) → Succeeds (raise e)
  Succeeds-raise e = record { at = λ trace h. but_latest-Succeeded trace h }

  Succeeds-continue :
      (n : Exec) (answer : Answer) (mid : Trace)
      → Succeeds n
      → Ended answer mid
      → Ended (continue answer n mid).0 (continue answer n mid).1
  Succeeds-continue n done mid q h = q.at mid h
  Succeeds-continue n (raised e) mid q h = h

  Succeeds-then : {m n : Exec} → Succeeds m → Succeeds n → Succeeds (m >> n)
  unfolding ◌>>◌
  Succeeds-then {m} {n} p q = record {
    at = λ trace h. Succeeds-continue n (m trace).0 (m trace).1 q (p.at trace h);
  }

  Succeeds-if : (b : Bool) {m n : Exec} → Succeeds m → Succeeds n → Succeeds (if b then m else n)
  Succeeds-if true p q = p
  Succeeds-if false p q = q

  Succeeds-each :
      {A : Type 0} (act : A → Exec) (l : List A)
      → ((a : A) → Succeeds (act a))
      → Succeeds (each act l)
  unfolding each
  Succeeds-each act [] h = Succeeds-pure
  Succeeds-each act (a ∷ rest) h = Succeeds-then (h a) (Succeeds-each act rest h)

  ended :
      (s : Step) (trace : Trace) (a : Answer)
      → (a ≡ done → HasSucceeded s trace)
      → Succeeded trace
      → Ended a (s ∷ trace)
  ended s trace done e h = (e refl, h)
  ended s trace (raised x) e h = h

  -- A step that is no start of tasks.
  abbrev IsPlain : Step → Type 0
  IsPlain s = (trace : Trace) → env.answer trace s ≡ done → HasSucceeded s trace

  Succeeds-step : (s : Step) → IsPlain s → Succeeds (step env s)
  unfolding step
  Succeeds-step s plain = record {
    at = λ trace h. ended s trace (env.answer trace s) (plain trace) h;
  }

  Succeeds-run_tasks : (tasks : List Task) → Succeeds (run_tasks env tasks)
  unfolding run_tasks
  Succeeds-run_tasks tasks = record {
    at = λ trace h. ended (start_tasks tasks) trace _ (answer_of-done trace tasks) h;
  }

  Succeeds-check : (old new : Bool) (r : Reason) → Succeeds (check_handling_allowed old new r)
  unfolding check_handling_allowed
  Succeeds-check old new Reason.create = Succeeds-if new (Succeeds-raise permanent) Succeeds-pure
  Succeeds-check old new Reason.resume = Succeeds-if new (Succeeds-raise permanent) Succeeds-pure
  Succeeds-check old new Reason.update =
      Succeeds-if (new && old) (Succeeds-raise permanent) Succeeds-pure

  Succeeds-secret : (id : ℕ) (name : String) → Succeeds (rotate_service_secret env id name)
  unfolding rotate_service_secret
  Succeeds-secret id name = Succeeds-if _ (Succeeds-step _ (λ trace e. e)) Succeeds-pure

  Succeeds-group :
      (g : Group) (id : ℕ) (enabled : List String) → Succeeds (rotate_group env g id enabled)
  unfolding rotate_group
  Succeeds-group Group.admin id enabled =
      Succeeds-then (Succeeds-then (Succeeds-step _ (λ trace e. e)) (Succeeds-run_tasks _))
        (Succeeds-step _ (λ trace e. e))
  Succeeds-group Group.service id enabled = Succeeds-each _ enabled (Succeeds-secret id)

  Succeeds-rotate :
      (osdpl : Deployment) (enabled : List String) → Succeeds (rotate_credentials env osdpl enabled)
  unfolding rotate_credentials rotate_if_changed
  Succeeds-rotate osdpl enabled =
      Succeeds-each _ _ λ g. Succeeds-if _ (Succeeds-group g _ enabled) Succeeds-pure

  Succeeds-upgrade : (enabled : List String) → Succeeds (upgrade_services env enabled)
  unfolding upgrade_services
  Succeeds-upgrade enabled =
      Succeeds-then
        (Succeeds-then (Succeeds-step _ (λ trace e. e))
          (Succeeds-each _ _ (λ s. Succeeds-step _ (λ trace e. e))))
        (Succeeds-each _ _ (λ s. Succeeds-run_tasks _))

  Succeeds-services : (osdpl : Deployment) → Succeeds (handle_services env osdpl)
  unfolding handle_services
  Succeeds-services osdpl =
      Succeeds-then
        (Succeeds-then (Succeeds-rotate osdpl _) (Succeeds-if _ (Succeeds-upgrade _) Succeeds-pure))
        (Succeeds-run_tasks _)

  Succeeds-bring_about : (osdpl : Deployment) → Succeeds (bring_about env osdpl)
  unfolding bring_about
  Succeeds-bring_about osdpl =
      Succeeds-then
        (Succeeds-then
          (Succeeds-then
            (Succeeds-then
              (Succeeds-then
                (Succeeds-then (Succeeds-step _ (λ trace e. e)) (Succeeds-step _ (λ trace e. e)))
                (Succeeds-check osdpl.old_restore osdpl.new_restore osdpl.reason))
              (Succeeds-step _ (λ trace e. e)))
            (Succeeds-if env.images_cached Succeeds-pure (Succeeds-step _ (λ trace e. e))))
          (Succeeds-step _ (λ trace e. e)))
        (Succeeds-services osdpl)

  Succeeds-handle : (osdpl : Deployment) → Succeeds (handle env osdpl)
  unfolding handle
  Succeeds-handle osdpl = Succeeds-if osdpl.draft Succeeds-pure (
      Succeeds-then (Succeeds-then (Succeeds-bring_about osdpl) (Succeeds-step _ (λ trace e. e)))
        (Succeeds-step _ (λ trace e. e)))

  Ended-but_latest : (a : Answer) (trace : Trace) → Ended a trace → Succeeded (but_latest trace)
  Ended-but_latest done trace h = but_latest-Succeeded trace h
  Ended-but_latest (raised e) trace h = h

  Succeeded-after :
      (before : Trace) (s : Step) (after : Trace)
      → Succeeded (but_latest (after ++ s ∷ before))
      → Succeeded before
  Succeeded-after before s [] h = h
  Succeeded-after before s (x ∷ []) h = h.1
  Succeeded-after before s (x ∷ y ∷ after) h = Succeeded-after before s (y ∷ after) h.1

-- Wherever `_handle` has set the status to applied, every step before has succeeded. Of the tasks that it
-- started each one, left to itself and run again while it fails for a time, returns within the rounds that
-- are followed: no failure is passed over.
pub handle-applied :
    (env : Environment) (osdpl : Deployment) (before after : Trace)
    → (handle env osdpl []).1 ≡ after ++ set_osdpl_status Status.applied ∷ before
    → Succeeded env before
handle-applied env osdpl before after e =
    let end =
      Ended-but_latest env (handle env osdpl []).0 (handle env osdpl []).1
        ((Succeeds-handle env osdpl).at [] tt) in
    Succeeded-after env before (set_osdpl_status Status.applied) after
      (subst (λ t. Succeeded env (but_latest env t)) e end)
