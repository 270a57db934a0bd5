-- ===== src/Common/Options.antt =====
-- Steps that may raise, where it does not matter what they raise: none is the exception.
use Prim.Native.Nat.{}
use mathlib.Core.Path.{◌≡◌, refl}
use mathlib.Core.Option.{Option, none, some}

infixl 5 ◌>>=◌
abbrev pub ◌>>=◌ {ℓ κ} : {A : Type ℓ} {B : Type κ} → Option A → (A → Option B) → Option B
none >>= f = none
some a >>= f = f a

-- A block that returns has returned from its first step.
pub some_of_bind {ℓ κ} :
    {A : Type ℓ} {B : Type κ} (step : Option A) (f : A → Option B) (b : B)
    → (step >>= f) ≡ some b
    → (a : A) × (step ≡ some a) × (f a ≡ some b)
some_of_bind none f b h = cc
some_of_bind (some a) f b h = (a, refl, h)

pub some_inj {ℓ} : {A : Type ℓ} {a b : A} → some a ≡ some b → a ≡ b
some_inj h = cc
