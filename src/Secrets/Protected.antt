-- ===== src/Secrets/Protected.antt =====
-- What a rotation renews of a service's secret and what it leaves alone.
use openstack_controller.Secrets.Rotate.{next_data}
use openstack_controller.Secrets.Classes.{
  passwords, account_rules, service_rotated, service_immutable, service_class,
}
use openstack_controller.Common.{
  ◌==◌, if◌then◌else◌, contains, AreDistinct, some_of_bind, some_inj, String, ◌≡◌, refl, sym, ap,
  ◌∙◌, subst, Bool, true, false, ◌||◌, Option, some, List, [], ◌∷◌, nat_eq, string_eq,
}
use openstack_controller.Secrets.Fill.{
  rule, Fields, Value, Rules, dict, entries, no_rules, is_empty, fill,
}
use openstack_controller.Secrets.Filled.{
  at_path, origin_in, from_src, from_dst, Origin, has_rule, AreProper, unruled, IsProper, ComesFrom,
  fill-origin, origin,
}

-- A value in the data of a secret.
abbrev pub value_at : List String → Fields → Option Value
value_at path content = at_path path (dict content)

pub account_rules-origin :
    (field : String) (fields accounts : List String) (account name : String)
    → contains accounts account ≡ true
    → origin_in (account_rules (field ∷ fields) accounts) account (name ∷ [])
      ≡ (if contains (field ∷ fields) name then from_src else from_dst)
unfolding account_rules
account_rules-origin field fields [] account name h = cc
account_rules-origin field fields (a ∷ accounts) account name h =
    here (a == account) h (account_rules-origin field fields accounts account name)
  where
    rest : Origin
    rest = origin_in (account_rules (field ∷ fields) accounts) account (name ∷ [])

    o : Origin
    o = if contains (field ∷ fields) name then from_src else from_dst

    here :
        (b : Bool)
        → (b || contains accounts account) ≡ true
        → (contains accounts account ≡ true → rest ≡ o)
        → (if b then o else rest) ≡ o
    here true h f = refl
    here false h f = f h

has_rule-account_rules :
    (fields accounts : List String) (account : String)
    → has_rule account (account_rules fields accounts) ≡ contains accounts account
unfolding account_rules
has_rule-account_rules fields [] account = refl
has_rule-account_rules fields (a ∷ accounts) account =
    ap (λ b. a == account || b) (has_rule-account_rules fields accounts account)

pub account_rules-other :
    (fields accounts : List String) (account : String) (path : List String)
    → contains accounts account ≡ false
    → origin_in (account_rules fields accounts) account path ≡ from_dst
account_rules-other fields accounts account path h =
    unruled (account_rules fields accounts) account path
      (has_rule-account_rules fields accounts account ∙ h)

account_rules-AreProper :
    (fields accounts : List String)
    → AreDistinct accounts
    → AreProper (account_rules fields accounts)
unfolding account_rules
account_rules-AreProper fields [] h = tt
account_rules-AreProper fields (a ∷ accounts) (once, h) =
    (has_rule-account_rules fields accounts a ∙ once, tt, account_rules-AreProper fields accounts h)

service_rotated-IsProper :
    (accounts : List String) → AreDistinct accounts → IsProper (service_rotated accounts)
unfolding service_rotated
service_rotated-IsProper accounts h =
    let user : (false ≡ false) × Unit × Unit = (refl, tt, tt) in
    (
      refl,
      user,
      (refl, user, (refl, user, (refl, account_rules-AreProper passwords accounts h, tt))),
    )

pub service_immutable-AreProper :
    (protected : List String) (more : Rules)
    → AreDistinct protected
    → has_rule "identity" more ≡ false
    → AreProper more
    → AreProper (service_immutable protected more)
unfolding service_immutable
service_immutable-AreProper [] more h once proper = proper
service_immutable-AreProper (a ∷ protected) more h once proper =
    (once, account_rules-AreProper ("username" ∷ []) (a ∷ protected) h, proper)

-- The first step of the new data, also where nothing is immutable.
kept-origin :
    (rules : Rules) (active backup : Fields) (kept : Value) (key : String) (path : List String)
    → AreProper rules
    → (elim (is_empty (entries rules)) [
      | true ↦ some (dict backup)
      | false ↦ fill (dict active) (dict backup) (entries rules)
    ])
      ≡ some kept
    → ComesFrom
        (origin_in rules key path)
        (value_at (key ∷ path) active)
        (value_at (key ∷ path) backup)
        (at_path (key ∷ path) kept)
kept-origin no_rules active backup kept key path proper h =
    ap (at_path (key ∷ path)) (sym (some_inj h))
kept-origin (rule k update rules) active backup kept key path proper h =
    fill-origin (dict active) (dict backup) (entries (rule k update rules)) kept (key ∷ path) proper
      h

-- What the two lists of rules say of a path, one after the other.
abbrev pub Comes :
    (immutable rotated : Origin) → (active backup created new : Option Value) → Type 0
Comes immutable rotated active backup created new =
    (kept : Option Value) × ComesFrom immutable active backup kept
    × ComesFrom rotated created kept new

module _ (base_name : String) (accounts protected : List String) (more : Rules) (created : Fields)
    (load : Value → Option Fields)
    (loads : (v : Value) (f : Fields) → load v ≡ some f → v ≡ dict f) where
  pub next_data-origin :
      (active backup content : Fields) (key : String) (path : List String)
      → AreDistinct accounts
      → AreProper (service_immutable protected more)
      → next_data (service_class base_name accounts protected more created load) active backup
        ≡ some content
      → Comes
          (origin_in (service_immutable protected more) key path)
          (origin (service_rotated accounts) (key ∷ path))
          (value_at (key ∷ path) active)
          (value_at (key ∷ path) backup)
          (value_at (key ∷ path) created)
          (value_at (key ∷ path) content)
  unfolding next_data service_class
  next_data-origin active backup content key path distinct proper h =
      let (kept, is_kept, h1) = some_of_bind _ _ content h in
      let (filled, is_filled, h2) =
        some_of_bind (fill (dict created) kept (service_rotated accounts)) load content h1 in
      (
        at_path (key ∷ path) kept,
        kept-origin (service_immutable protected more) active backup kept key path proper is_kept,
        subst
            (λ v.
              ComesFrom (origin (service_rotated accounts) (key ∷ path))
                (value_at (key ∷ path) created) (at_path (key ∷ path) kept)
                (at_path (key ∷ path) v))
            (loads filled content h2)
            (fill-origin (dict created) kept (service_rotated accounts) filled (key ∷ path)
              (service_rotated-IsProper accounts distinct) is_filled),
      )
