-- ===== src/Services/Triple.antt =====
-- What holds after a method, where it returns and where it raises.
use openstack_controller.Common.{if◌then◌else◌, ◌≡◌, refl, Bool, true, false}
use openstack_controller.Services.World.{
  Error, raise, Method, continue, ◌>>=◌, World, Result, ok, raised,
}

-- From H, the method gives Q where it returns and E where it raises.
abbrev pub Outcome {ℓ} : {A : Type ℓ} → (Q E : World → Type 0) → Result A × World → Type 0
Outcome Q E (ok a, world) = Q world
Outcome Q E (raised e, world) = E world

pub record Triple {ℓ} {A : Type ℓ} (H Q E : World → Type 0) (m : Method A) : Type 0 where
  pub at : (w : World) → H w → Outcome Q E (m w)

module _ {M Q E : World → Type 0} where
  Triple-continue {ℓ κ} :
      {A : Type ℓ} {B : Type κ} (f : A → Method B) (r : Result A) (w : World)
      → ((a : A) → Triple M Q E (f a))
      → Outcome M E (r, w)
      → Outcome Q E (continue f r w)
  Triple-continue f (ok a) w later h = (later a).at w h
  Triple-continue f (raised e) w later h = h

  pub Triple-bind {ℓ κ} :
      {H : World → Type 0} {A : Type ℓ} {B : Type κ} {m : Method A} {f : A → Method B}
      → Triple H M E m
      → ((a : A) → Triple M Q E (f a))
      → Triple H Q E (m >>= f)
  unfolding ◌>>=◌
  Triple-bind {m} {f} first later = record {
    at = λ w h. Triple-continue f (m w).0 (m w).1 later (first.at w h);
  }

module _ {Q E Q' E' : World → Type 0} where
  pub Outcome-weaken {ℓ} :
      {A : Type ℓ} (r : Result A × World)
      → ((w : World) → Q w → Q' w)
      → ((w : World) → E w → E' w)
      → Outcome Q E r
      → Outcome Q' E' r
  Outcome-weaken (ok a, w) q e h = q w h
  Outcome-weaken (raised x, w) q e h = e w h

  pub Triple-weaken {ℓ} :
      {H : World → Type 0} {A : Type ℓ} {m : Method A}
      → Triple H Q E m
      → ((w : World) → Q w → Q' w)
      → ((w : World) → E w → E' w)
      → Triple H Q' E' m
  Triple-weaken {m} t q e = record { at = λ w h. Outcome-weaken (m w) q e (t.at w h) }

pub Triple-invariant {ℓ} :
    {A : Type ℓ} {m : Method A} {P : World → Type 0}
    → ((w : World) → P w → P (m w).1)
    → Triple P P P m
Triple-invariant {A = A} {m = m} {P = P} keeps = record { at = λ w h. both (m w) (keeps w h) }
  where
    both : (r : Result A × World) → P r.1 → Outcome P P r
    both (ok a, w) h = h
    both (raised e, w) h = h

abbrev pub Always : World → Type 0
Always w = Unit

pub Triple-Always {ℓ} : {A : Type ℓ} (m : Method A) → Triple Always Always Always m
Triple-Always m = Triple-invariant (λ w h. tt)

-- What raises at its end needs to give nothing.
pub Triple-raises {ℓ κ} :
    {A : Type ℓ} {B : Type κ} {Q : World → Type 0} (m : Method A) (e : Error)
    → Triple Always Q Always (m >>= λ a. raise {A = B} e)
Triple-raises m e = Triple-bind {M = Always} (Triple-Always m) (λ a. record { at = λ w h. tt })

pub Triple-if {ℓ} :
    (b : Bool) {A : Type ℓ} {H Q E : World → Type 0} {m n : Method A}
    → Triple H Q E m
    → Triple H Q E n
    → Triple H Q E (if b then m else n)
Triple-if true first second = first
Triple-if false first second = second

pub Outcome-continue {ℓ κ} :
    {A : Type ℓ} {B : Type κ} (M Q E : World → Type 0) (f : A → Method B) (r : Result A × World)
    → Outcome M E r
    → ((a : A) → r.0 ≡ ok a → M r.1 → Outcome Q E (f a r.1))
    → Outcome Q E (continue f r.0 r.1)
Outcome-continue M Q E f (ok a, w) h later = later a refl h
Outcome-continue M Q E f (raised e, w) h later = h
