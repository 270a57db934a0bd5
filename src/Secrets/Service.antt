-- ===== src/Secrets/Service.antt =====
-- The secret of a service after a rotation, account by account.
use openstack_controller.Secrets.Rotate.{next_data}
use openstack_controller.Secrets.Classes.{
  service_immutable, service_rotated, account_rules, passwords, service_class,
}
use openstack_controller.Common.{
  if◌then◌else◌, contains, AreDistinct, String, ◌≡◌, refl, ap, ◌∙◌, subst, Bool, true, false,
  Option, some, List, [], ◌∷◌, nat_eq, string_eq,
}
use openstack_controller.Secrets.Fill.{Fields, Value, Rules, dict, entries, is_empty}
use openstack_controller.Secrets.Filled.{
  origin, origin_in, from_src, from_dst, has_rule, AreProper, unruled, ComesFrom,
}
use openstack_controller.Secrets.Protected.{
  next_data-origin, account_rules-origin, service_immutable-AreProper, account_rules-other,
  value_at,
}

account_rules-is_empty :
    (fields accounts : List String) (account : String)
    → contains accounts account ≡ true
    → is_empty (entries (account_rules fields accounts)) ≡ false
unfolding account_rules
account_rules-is_empty fields [] account h = cc
account_rules-is_empty fields (a ∷ accounts) account h = refl

-- The rules of the passwords, at a field of an account.
rotated-at :
    (accounts : List String) (account name : String)
    → contains accounts account ≡ true
    → origin (service_rotated accounts) ("identity" ∷ account ∷ name ∷ [])
      ≡ (if contains passwords name then from_src else from_dst)
unfolding service_rotated
rotated-at accounts account name h =
    ap
      (λ b.
        if b then from_src else origin_in (account_rules passwords accounts) account (name ∷ []))
      (account_rules-is_empty passwords accounts account h)
    ∙ account_rules-origin "password" [] accounts account name h

immutable-protected :
    (protected : List String) (more : Rules) (account : String)
    → contains protected account ≡ true
    → origin_in (service_immutable protected more) "identity" (account ∷ "username" ∷ []) ≡ from_src
unfolding service_immutable account_rules
immutable-protected [] more account h = cc
immutable-protected (a ∷ protected) more account h =
    account_rules-origin "username" [] (a ∷ protected) account "username" h

immutable-other :
    (protected : List String) (more : Rules) (account : String) (path : List String)
    → contains protected account ≡ false
    → has_rule "identity" more ≡ false
    → origin_in (service_immutable protected more) "identity" (account ∷ path) ≡ from_dst
unfolding service_immutable account_rules
immutable-other [] more account path h once = unruled more "identity" (account ∷ path) once
immutable-other (a ∷ protected) more account path h once =
    account_rules-other ("username" ∷ []) (a ∷ protected) account path h

abbrev field_of : String → String → List String
field_of account name = "identity" ∷ account ∷ name ∷ []

whose :
    (b : Bool) (path : List String) (active backup : Fields) (u : Option Value)
    → (b ≡ true → u ≡ value_at path active)
    → (b ≡ false → u ≡ value_at path backup)
    → u ≡ value_at path (if b then active else backup)
whose true path active backup u protected other = protected refl
whose false path active backup u protected other = other refl

module _ (base_name : String) (accounts protected : List String) (more : Rules) (created : Fields)
    (load : Value → Option Fields)
    (loads : (v : Value) (f : Fields) → load v ≡ some f → v ≡ dict f) where
  -- The data that a rotation writes for a service, at one of its accounts: the password is the newly
  -- created one; the username is the active secret's where the account is protected, and stays the
  -- backup's where it is not. No account is listed twice, the entries that the class adds are proper and
  -- none is for identities, and loading data in the right format changes none of it.
  pub next_data-accounts :
      (active backup content : Fields) (account : String)
      → AreDistinct accounts
      → AreDistinct protected
      → has_rule "identity" more ≡ false
      → AreProper more
      → contains accounts account ≡ true
      → next_data (service_class base_name accounts protected more created load) active backup
        ≡ some content
      → (value_at (field_of account "password") content
          ≡ value_at (field_of account "password") created)
        × (value_at (field_of account "username") content
            ≡ value_at
                (field_of account "username")
                (if contains protected account then active else backup))
  next_data-accounts active backup content account distinct apart once proper listed made =
      let immutable = service_immutable-AreProper protected more apart once proper in
      let (p, p_kept, p_new) =
        next_data-origin base_name accounts protected more created load loads active backup content
          "identity" (account ∷ "password" ∷ []) distinct immutable made in
      let (u, u_kept, u_new) =
        next_data-origin base_name accounts protected more created load loads active backup content
          "identity" (account ∷ "username" ∷ []) distinct immutable made in
      let stays =
        subst
          (λ o.
            ComesFrom o (value_at (field_of account "username") created) u
              (value_at (field_of account "username") content))
          (rotated-at accounts account "username" listed) u_new in
      (
        subst
            (λ o.
              ComesFrom o (value_at (field_of account "password") created) p
                (value_at (field_of account "password") content))
            (rotated-at accounts account "password" listed) p_new,
        stays
            ∙ whose (contains protected account) (field_of account "username") active backup u
                (λ b.
                  subst
                    (λ o.
                      ComesFrom o (value_at (field_of account "username") active)
                        (value_at (field_of account "username") backup) u)
                    (immutable-protected protected more account b) u_kept)
                (λ b.
                  subst
                    (λ o.
                      ComesFrom o (value_at (field_of account "username") active)
                        (value_at (field_of account "username") backup) u)
                    (immutable-other protected more account ("username" ∷ []) b once) u_kept),
      )
