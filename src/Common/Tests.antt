-- ===== src/Common/Tests.antt =====
-- Boolean tests, one equality for every type that has an instance, and the conditional.
use Prim.Native.Nat.{ℕ, compare, Ordering}
use Prim.Native.String.{String}
use mathlib.Core.Path.{◌≡◌, refl}
use mathlib.Core.Logic.{◌↔◌, ◌⊎◌, inl, inr}
use mathlib.Core.Bool.{Bool, true, false}
use mathlib.Core.Option.{Option, none, some}
use native.Mathlib.Omega.{arith}
use text.Mathlib.Text.{◌==◌ as str_beq}
use text.Mathlib.TextEquality.{eq_iff as str_iff}

-- These compute to `compare`, which `ground` and `grind` read with no lemma listed.
abbrev pub ltb : ℕ → ℕ → Bool
ltb a b = elim (compare a b) [ Ordering.lt ↦ true | _ ↦ false ]

abbrev pub leb : ℕ → ℕ → Bool
leb a b = elim (compare a b) [ Ordering.gt ↦ false | _ ↦ true ]

abbrev nat_beq : ℕ → ℕ → Bool
nat_beq a b = elim (compare a b) [ Ordering.eq ↦ true | _ ↦ false ]

pub nat_iff : (a b : ℕ) → (nat_beq a b ≡ true) ↔ (a ≡ b)
nat_iff a b = ground arith

-- What a type needs so that the program may compare two of its values.
pub record Eq {ℓ} (A : Type ℓ) : Type ℓ where
  pub equal : (left right : A) → Bool
  pub reflects : (left right : A) → (equal left right ≡ true) ↔ (left ≡ right)

module _ {ℓ} {A : Type ℓ} ⦃same : Eq A⦄ where
  infix 50 ◌==◌
  abbrev pub ◌==◌ : (left right : A) → Bool
  left == right = same.equal left right

  pub eq_iff : (left right : A) → ((left == right) ≡ true) ↔ (left ≡ right)
  eq_iff left right = same.reflects left right

  pub eq_refl : (a : A) → (a == a) ≡ true
  eq_refl a = (eq_iff a a).1 refl

instance abbrev pub nat_eq : Eq ℕ
nat_eq = record { equal = nat_beq; reflects = nat_iff }

instance abbrev pub string_eq : Eq String
string_eq = record { equal = str_beq; reflects = str_iff }

infix 1 if◌then◌else◌
abbrev pub if◌then◌else◌ {ℓ} : {A : Type ℓ} → Bool → A → A → A
if true then x else y = x
if false then x else y = y

-- To split on a computed value and keep the equation.
pub Bool-cases : (b : Bool) → (b ≡ true) ⊎ (b ≡ false)
Bool-cases true = inl refl
Bool-cases false = inr refl

pub Option-cases {ℓ} : {A : Type ℓ} (o : Option A) → (o ≡ none) ⊎ ((a : A) × (o ≡ some a))
Option-cases none = inl refl
Option-cases (some a) = inr (a, refl)
