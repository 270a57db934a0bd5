-- ===== src/Services/Keeps.antt =====
-- Rules for what methods keep of the world, for any reflexive and transitive relation between the world
-- before and after.
use openstack_controller.Common.{
  if◌then◌else◌, ℕ, zero, suc, String, ◌≡◌, refl, Bool, true, false, Option, none, some, List, [],
  ◌∷◌,
}
use openstack_controller.Services.World.{
  Method, pure, raise, each, gather, continue, ◌>>=◌, World, Result, ok, raised, Error,
}
use openstack_controller.Services.Helm.{
  rollback_release, rollback_release, Program, Command, Reply, classify, attempt, retry,
  delete_match, is_retried, guess_and_delete, communicate, delete_not_active_releases,
  get_release_values, delete, retry_if, delete_bundle, list_names, run_cmd, install_bundle, install,
  raise_failure,
}

pub record Preorder : Type 1 where
  pub Related : World → World → Type 0
  pub reflexive : (w : World) → Related w w
  pub transitive : {a b c : World} → Related a b → Related b c → Related a c

module _ (order : Preorder) where
  pub record Keeps {ℓ} {A : Type ℓ} (m : Method A) : Type 0 where
    pub at : (w : World) → order.Related w (m w).1

  pub Keeps-pure {ℓ} : {A : Type ℓ} (a : A) → Keeps (pure a)
  Keeps-pure a = record { at = λ w. order.reflexive w }

  pub Keeps-raise {ℓ} : {A : Type ℓ} (e : Error) → Keeps {A = A} (raise e)
  Keeps-raise e = record { at = λ w. order.reflexive w }

  -- A method that only answers.
  pub Keeps-answer {ℓ} : {A : Type ℓ} (f : World → Result A) → Keeps (λ w. (f w, w))
  Keeps-answer f = record { at = λ w. order.reflexive w }

  Keeps-continue {ℓ κ} :
      {A : Type ℓ} {B : Type κ} (f : A → Method B) (r : Result A) (w mid : World)
      → ((a : A) → Keeps (f a))
      → order.Related w mid
      → order.Related w (continue f r mid).1
  Keeps-continue f (ok a) w mid keeps h = order.transitive h ((keeps a).at mid)
  Keeps-continue f (raised e) w mid keeps h = h

  pub Keeps-bind {ℓ κ} :
      {A : Type ℓ} {B : Type κ} {m : Method A} {f : A → Method B}
      → Keeps m
      → ((a : A) → Keeps (f a))
      → Keeps (m >>= f)
  unfolding ◌>>=◌
  Keeps-bind {m} {f} first later = record {
    at = λ w. Keeps-continue f (m w).0 w (m w).1 later (first.at w);
  }

  pub Keeps-if {ℓ} :
      (b : Bool) {A : Type ℓ} {m n : Method A} → Keeps m → Keeps n → Keeps (if b then m else n)
  Keeps-if true first second = first
  Keeps-if false first second = second

  pub Keeps-each {ℓ} :
      {A : Type ℓ} (act : A → Method (Unit {0})) (l : List A)
      → ((a : A) → Keeps (act a))
      → Keeps (each act l)
  unfolding each
  Keeps-each act [] h = Keeps-pure tt
  Keeps-each act (a ∷ rest) h = Keeps-bind (h a) (λ _. Keeps-each act rest h)

  pub Keeps-gather {ℓ} :
      {A : Type ℓ} (act : A → Method (Unit {0})) (l : List A)
      → ((a : A) → Keeps (act a))
      → Keeps (gather act l)
  unfolding gather
  Keeps-gather act [] h = Keeps-pure tt
  Keeps-gather act (a ∷ rest) h = record {
    at = λ w. order.transitive ((h a).at w) ((Keeps-gather act rest h).at (act a w).1);
  }

  module _ (helm : Program) where
    -- What a call of helm, the rollback after it and the deletions of objects keep, an attempt keeps.
    Keeps-classify :
        (raise_on_error : Bool) (release : Option String) (reply : Reply)
        → ((o : String × String) → Keeps (delete_match helm o))
        → ((name : String) → release ≡ some name → Keeps (communicate helm (rollback_release name)))
        → Keeps (classify helm raise_on_error release reply)
    unfolding classify raise_failure guess_and_delete
    Keeps-classify raise_on_error none reply deletes back =
        Keeps-if _
          (Keeps-if _
            (Keeps-bind (Keeps-each (delete_match helm) reply.matches deletes) (λ _. Keeps-raise _))
            (Keeps-raise _))
          (Keeps-pure reply)
    Keeps-classify raise_on_error (some name) reply deletes back =
        Keeps-if _
          (Keeps-if _
            (Keeps-bind (Keeps-each (delete_match helm) reply.matches deletes) (λ _. Keeps-raise _))
            (Keeps-if _ (Keeps-bind (back name refl) (λ _. Keeps-raise _)) (Keeps-raise _)))
          (Keeps-pure reply)

    pub Keeps-attempt :
        (command : Command) (raise_on_error : Bool) (release : Option String)
        → ((o : String × String) → Keeps (delete_match helm o))
        → Keeps (communicate helm command)
        → ((name : String) → release ≡ some name → Keeps (communicate helm (rollback_release name)))
        → Keeps (attempt helm command raise_on_error release)
    unfolding attempt
    Keeps-attempt command raise_on_error release deletes call back =
        Keeps-bind call (λ reply. Keeps-classify raise_on_error release reply deletes back)

    pub Keeps-retry :
        (fuel : ℕ) (command : Command) (raise_on_error : Bool) (release : Option String)
        → Keeps (attempt helm command raise_on_error release)
        → Keeps (retry helm fuel command raise_on_error release)
    unfolding retry
    Keeps-retry zero command raise_on_error release one = record { at = λ w. order.reflexive w }
    Keeps-retry (suc fuel) command raise_on_error release one = record {
      at = λ w.
          again (is_retried helm (attempt helm command raise_on_error release w).0) w
            (Keeps-retry fuel command raise_on_error release one);
    }
      where
        again :
            (b : Bool) (w : World)
            → Keeps (retry helm fuel command raise_on_error release)
            → order.Related w
                (retry_if helm b
                  (retry helm fuel command raise_on_error release)
                  (attempt helm command raise_on_error release w)).1
        again true w later = order.transitive (one.at w) (later.at _)
        again false w later = one.at w

  module _ (helm : Program) (deletes : (o : String × String) → Keeps (delete_match helm o))
      (calls : (command : Command) → Keeps (communicate helm command)) where
    pub Keeps-run_cmd :
        (command : Command) (raise_on_error : Bool) (release : Option String)
        → Keeps (run_cmd helm command raise_on_error release)
    unfolding run_cmd
    Keeps-run_cmd command raise_on_error release =
        Keeps-retry helm helm.attempts command raise_on_error release (
          Keeps-attempt helm command raise_on_error release deletes (calls command)
            (λ name e. calls _))

    pub Keeps-list_names : Keeps (list_names helm)
    unfolding list_names
    Keeps-list_names = Keeps-bind (Keeps-run_cmd _ _ _) (λ r. Keeps-answer _)

    pub Keeps-get_release_values : (name : String) → Keeps (get_release_values helm name)
    unfolding get_release_values
    Keeps-get_release_values name = Keeps-bind (Keeps-run_cmd _ _ _) (λ r. Keeps-answer _)

    pub Keeps-install_bundle :
        (releases : List (String × String)) → Keeps (install_bundle helm releases)
    unfolding install_bundle install
    Keeps-install_bundle releases =
        Keeps-each (install helm) releases
          (λ r. Keeps-bind (Keeps-run_cmd _ _ _) (λ reply. Keeps-pure tt))

    Keeps-delete : (name : String) → Keeps (delete helm name)
    unfolding delete
    Keeps-delete name =
        Keeps-bind (Keeps-run_cmd _ _ _) (λ r. Keeps-if _ (Keeps-raise _) (Keeps-pure tt))

    pub Keeps-delete_bundle : (available : List String) → Keeps (delete_bundle helm available)
    unfolding delete_bundle
    Keeps-delete_bundle available =
        Keeps-bind Keeps-list_names (λ current. Keeps-each (delete helm) _ Keeps-delete)

    pub Keeps-delete_not_active_releases :
        (releases : List (String × String)) (available : List String)
        → Keeps (delete_not_active_releases helm releases available)
    unfolding delete_not_active_releases
    Keeps-delete_not_active_releases releases available = Keeps-each (delete helm) _ Keeps-delete
