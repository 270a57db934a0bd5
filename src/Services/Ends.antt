-- ===== src/Services/Ends.antt =====
-- Rules for methods that come to an end.
use openstack_controller.Common.{if◌then◌else◌, ◌≡◌, refl, Bool, true, false, List, [], ◌∷◌}
use openstack_controller.Services.World.{
  Method, World, Result, ok, raised, Error, temporary, timed_out, immutable_field_change,
  helm_rollback, other, still_retrying, pure, raise, each, gather, continue, ◌>>=◌, or_first,
}

-- The code gave an answer or an error of its own.
abbrev pub is_ended {ℓ} : {A : Type ℓ} → Result A → Bool
is_ended (ok a) = true
is_ended (raised temporary) = true
is_ended (raised immutable_field_change) = true
is_ended (raised helm_rollback) = true
is_ended (raised timed_out) = true
is_ended (raised other) = true
is_ended (raised still_retrying) = false

-- The method comes to an end, from every state.
pub record Ends {ℓ} {A : Type ℓ} (m : Method A) : Type 0 where
  pub at : (w : World) → is_ended (m w).0 ≡ true

pub Ends-pure {ℓ} : {A : Type ℓ} (a : A) → Ends (pure a)
Ends-pure a = record { at = λ w. refl }

pub Ends-raise {ℓ} :
    {A : Type ℓ} (e : Error) → is_ended {A = A} (raised e) ≡ true → Ends {A = A} (raise e)
Ends-raise e h = record { at = λ w. h }

Ends-continue {ℓ κ} :
    {A : Type ℓ} {B : Type κ} (f : A → Method B) (r : Result A) (w : World)
    → is_ended r ≡ true
    → ((a : A) → Ends (f a))
    → is_ended (continue f r w).0 ≡ true
Ends-continue f (ok a) w h later = (later a).at w
Ends-continue f (raised temporary) w h later = refl
Ends-continue f (raised immutable_field_change) w h later = refl
Ends-continue f (raised helm_rollback) w h later = refl
Ends-continue f (raised timed_out) w h later = refl
Ends-continue f (raised other) w h later = refl
Ends-continue f (raised still_retrying) w h later = cc

pub Ends-bind {ℓ κ} :
    {A : Type ℓ} {B : Type κ} {m : Method A} {f : A → Method B}
    → Ends m
    → ((a : A) → Ends (f a))
    → Ends (m >>= f)
unfolding ◌>>=◌
Ends-bind {m} {f} first later = record {
  at = λ w. Ends-continue f (m w).0 (m w).1 (first.at w) later;
}

pub Ends-if {ℓ} :
    (b : Bool) {A : Type ℓ} {m n : Method A} → Ends m → Ends n → Ends (if b then m else n)
Ends-if true first second = first
Ends-if false first second = second

pub Ends-each {ℓ} :
    {A : Type ℓ} (act : A → Method (Unit {0})) (l : List A)
    → ((a : A) → Ends (act a))
    → Ends (each act l)
unfolding each
Ends-each act [] h = Ends-pure tt
Ends-each act (a ∷ rest) h = Ends-bind (h a) (λ t. Ends-each act rest h)

pub Ends-gather {ℓ} :
    {A : Type ℓ} (act : A → Method (Unit {0})) (l : List A)
    → ((a : A) → Ends (act a))
    → Ends (gather act l)
unfolding gather
Ends-gather act [] h = record { at = λ w. refl }
Ends-gather act (a ∷ rest) h = record {
  at = λ w. both (act a w).0 _ ((h a).at w) ((Ends-gather act rest h).at (act a w).1);
}
  where
    both :
        (r s : Result (Unit {0}))
        → is_ended r ≡ true
        → is_ended s ≡ true
        → is_ended (or_first r s) ≡ true
    both (ok t) s h later = later
    both (raised e) s h later = h
