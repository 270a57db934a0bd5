-- ===== src/Deployment/Follows.antt =====
-- Two ways to reason on methods of the deployment handlers: which steps they take, and that they go
-- on only from steps that succeeded.
use openstack_controller.Common.{
  if◌then◌else◌, ◌≡◌, ◌≢◌, refl, sym, ap, ◌∙◌, Bool, true, false, List, [], ◌∷◌, ◌++◌,
}
use openstack_controller.Deployment.Tasks.{Task}
use openstack_controller.Deployment.Steps.{
  Step, start_tasks, Error, Answer, done, raised, Trace, Environment, Exec, pure, raise, continue,
  ◌>>◌, each, step, run_tasks,
}

-- The trace after more steps.
abbrev pub onto : List Step → Trace → Trace
onto [] trace = trace
onto (s ∷ steps) trace = onto steps (s ∷ trace)

onto-append : (a b : List Step) (trace : Trace) → onto (a ++ b) trace ≡ onto b (onto a trace)
onto-append [] b trace = refl
onto-append (s ∷ a) b trace = onto-append a b (s ∷ trace)

append-nil : (a : List Step) → a ++ [] ≡ a
append-nil [] = refl
append-nil (s ∷ a) = ap (λ l. s ∷ l) (append-nil a)

pub append-append : (a b c : List Step) → (a ++ b) ++ c ≡ a ++ (b ++ c)
append-append [] b c = refl
append-append (s ∷ a) b c = ap (λ l. s ∷ l) (append-append a b c)

-- The steps taken are the first ones of `steps`, and all of them where the method returns.
pub record Progress (steps : List Step) (start : Trace) (answer : Answer) (end : Trace)
    : Type 0 where
  pub taken : List Step
  pub left : List Step
  pub split : taken ++ left ≡ steps
  pub end_is : end ≡ onto taken start
  pub all_taken : answer ≡ done → left ≡ []

pub record Follows (m : Exec) (steps : List Step) : Type 0 where
  pub at : (trace : Trace) → Progress steps trace (m trace).0 (m trace).1

pub Follows-pure : Follows pure []
Follows-pure = record {
  at =
      λ trace. record { taken = []; left = []; split = refl; end_is = refl; all_taken = λ _. refl };
}

Follows-continue :
    (a b : List Step) (n : Exec) (start : Trace) (answer : Answer) (mid : Trace)
    → Progress a start answer mid
    → Follows n b
    → Progress (a ++ b) start (continue answer n mid).0 (continue answer n mid).1
Follows-continue a b n start done mid p q =
    let r = q.at mid in
    let whole : p.taken ≡ a =
      sym (append-nil p.taken) ∙ ap (λ l. p.taken ++ l) (sym (p.all_taken refl)) ∙ p.split in
    record {
      taken = a ++ r.taken;
      left = r.left;
      split = append-append a r.taken r.left ∙ ap (λ l. a ++ l) r.split;
      end_is =
          r.end_is
          ∙ ap (λ t. onto r.taken t) (p.end_is ∙ ap (λ l. onto l start) whole)
          ∙ sym (onto-append a r.taken start);
      all_taken = r.all_taken;
    }
Follows-continue a b n start (raised e) mid p q = record {
  taken = p.taken;
  left = p.left ++ b;
  split = sym (append-append p.taken p.left b) ∙ ap (λ l. l ++ b) p.split;
  end_is = p.end_is;
  all_taken = λ r. cc;
}

pub Follows-then :
    {m n : Exec} {a b : List Step} → Follows m a → Follows n b → Follows (m >> n) (a ++ b)
unfolding ◌>>◌
Follows-then {m} {n} {a} {b} p q = record {
  at = λ trace. Follows-continue a b n trace (m trace).0 (m trace).1 (p.at trace) q;
}

pub Follows-raise : (e : Error) (steps : List Step) → Follows (raise e) steps
Follows-raise e steps = record {
  at = λ trace. record {
    taken = [];
    left = steps;
    split = refl;
    end_is = refl;
    all_taken = λ r. cc;
  };
}

abbrev pub all_steps : {A : Type 0} → (A → List Step) → List A → List Step
all_steps f [] = []
all_steps f (a ∷ rest) = f a ++ all_steps f rest

pub Follows-each :
    {A : Type 0} (act : A → Exec) (f : A → List Step) (l : List A)
    → ((a : A) → Follows (act a) (f a))
    → Follows (each act l) (all_steps f l)
unfolding each
Follows-each act f [] h = Follows-pure
Follows-each act f (a ∷ rest) h = Follows-then (h a) (Follows-each act f rest h)

pub Follows-if :
    (b : Bool) {m n : Exec} {s t : List Step}
    → Follows m s
    → Follows n t
    → Follows (if b then m else n) (if b then s else t)
Follows-if true p q = p
Follows-if false p q = q

module _ (env : Environment) where
  pub Follows-step : (s : Step) → Follows (step env s) (s ∷ [])
  unfolding step
  Follows-step s = record {
    at = λ trace. record {
      taken = s ∷ [];
      left = [];
      split = refl;
      end_is = refl;
      all_taken = λ _. refl;
    };
  }

  pub Follows-run_tasks :
      (tasks : List Task) → Follows (run_tasks env tasks) (start_tasks tasks ∷ [])
  unfolding run_tasks
  Follows-run_tasks tasks = record {
    at = λ trace. record {
      taken = start_tasks tasks ∷ [];
      left = [];
      split = refl;
      end_is = refl;
      all_taken = λ _. refl;
    };
  }

-- The method takes the first of these steps, and raises.
pub record Stops (m : Exec) (steps : List Step) : Type 0 where
  pub follows : Follows m steps
  pub raises : (trace : Trace) → (m trace).0 ≢ done

pub Stops-raise : (e : Error) → Stops (raise e) []
Stops-raise e = record { follows = Follows-raise e []; raises = λ trace h. cc }

pub Stops-then : {m : Exec} {a : List Step} → Stops m a → (n : Exec) → Stops (m >> n) a
unfolding ◌>>◌
Stops-then {m} {a} p n = record {
  follows = record {
    at = λ trace. kept trace (m trace).0 (m trace).1 (p.raises trace) (p.follows.at trace);
  };
  raises = λ trace. raised_on (m trace).0 (m trace).1 (p.raises trace);
}
  where
    kept :
        (start : Trace) (r : Answer) (mid : Trace)
        → r ≢ done
        → Progress a start r mid
        → Progress a start (continue r n mid).0 (continue r n mid).1
    kept start done mid h q = absurd (h refl)
    kept start (raised e) mid h q = q

    raised_on : (r : Answer) (mid : Trace) → r ≢ done → (continue r n mid).0 ≢ done
    raised_on done mid h = absurd (h refl)
    raised_on (raised e) mid h = h

pub Follows-Stops :
    {m n : Exec} {a b : List Step} → Follows m a → Stops n b → Stops (m >> n) (a ++ b)
unfolding ◌>>◌
Follows-Stops {m} {n} p q = record {
  follows = Follows-then p q.follows;
  raises = λ trace. raised_on (m trace).0 (m trace).1;
}
  where
    raised_on : (r : Answer) (mid : Trace) → (continue r n mid).0 ≢ done
    raised_on done mid = q.raises mid
    raised_on (raised e) mid = λ h. cc
