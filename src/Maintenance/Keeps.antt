-- ===== src/Maintenance/Keeps.antt =====
-- Invariants of actions: one rule for each way to build an action.
use openstack_controller.Common.{
  if◌then◌else◌, String, ◌≡◌, refl, sym, subst, Bool, true, false, arith,
}
use openstack_controller.Maintenance.Cluster.{
  Cluster, Exception, Result, ok, err, Kind, Exec, pure, raise, lift, gets, continue, ◌>>=◌,
}
use openstack_controller.Maintenance.Lock.{reload}

-- `m` keeps `P`, whether it returns or raises.
pub record Keeps (P : Cluster → Type 0) {A : Type 0} (m : Exec A) : Type 0 where
  pub at : (c : Cluster) → P c → P (m c).1

module _ {P : Cluster → Type 0} {A : Type 0} where
  pub Keeps-pure : (a : A) → Keeps P (pure a)
  Keeps-pure a = record { at = λ c h. h }

  pub Keeps-raise : (e : Exception) → Keeps P (raise {A = A} e)
  Keeps-raise e = record { at = λ c h. h }

  pub Keeps-lift : (r : Result A) → Keeps P (lift r)
  Keeps-lift r = record { at = λ c h. h }

  pub Keeps-gets : (f : Cluster → A) → Keeps P (gets f)
  Keeps-gets f = record { at = λ c h. h }

  pub Keeps-if : (b : Bool) (m n : Exec A) → Keeps P m → Keeps P n → Keeps P (if b then m else n)
  Keeps-if true m n km kn = km
  Keeps-if false m n km kn = kn

module _ {P : Cluster → Type 0} {A B : Type 0} where
  Keeps-continue :
      (r : Result A) (f : A → Exec B) (c : Cluster)
      → ((a : A) → Keeps P (f a))
      → P c
      → P (continue r f c).1
  Keeps-continue (ok a) f c k h = (k a).at c h
  Keeps-continue (err e) f c k h = h

  pub Keeps-bind :
      (first : Exec A) (rest : A → Exec B)
      → Keeps P first
      → ((answer : A) → Keeps P (rest answer))
      → Keeps P (first >>= rest)
  unfolding ◌>>=◌
  Keeps-bind first rest k ks = record {
    at = λ c h. Keeps-continue (first c).0 rest (first c).1 ks (k.at c h);
  }

-- What holds after the first part, and after the rest from there, holds after the block.
pub bind_at :
    {A B : Type 0} (P : Cluster → Type 0) (m : Exec A) (f : A → Exec B) (c : Cluster)
    → P (m c).1
    → ((a : A) → (m c).0 ≡ ok a → P (f a (m c).1).1)
    → P ((m >>= f) c).1
unfolding ◌>>=◌
bind_at {A} {B} P m f c = go (m c).0 (m c).1
  where
    go :
        (r : Result A) (c' : Cluster)
        → P c'
        → ((a : A) → r ≡ ok a → P (f a c').1)
        → P (continue r f c').1
    go (ok a) c' h k = k a refl
    go (err e) c' h k = h

-- The same for a first part that leaves the state alone.
pub bind_quiet :
    {A B : Type 0} (P : Cluster → Type 0) (m : Exec A) (f : A → Exec B) (c : Cluster)
    → (m c).1 ≡ c
    → P c
    → ((a : A) → (m c).0 ≡ ok a → P (f a c).1)
    → P ((m >>= f) c).1
bind_quiet P m f c same h k =
    bind_at P m f c (subst P (sym same) h) (λ a e. subst (λ d. P (f a d).1) (sym same) (k a e))

pub Keeps-reload : {P : Cluster → Type 0} (k : Kind) (n : String) → Keeps P (reload k n)
unfolding reload
Keeps-reload {P} k n = record { at = λ c h. ground arith }

pub ruleset keeps_rules =
    (Keeps-pure, Keeps-raise, Keeps-lift, Keeps-gets, Keeps-if, Keeps-reload, Keeps-bind)
