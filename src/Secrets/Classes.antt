-- ===== src/Secrets/Classes.antt =====
-- The `rotation_fields` of the classes of secrets of openstack_controller/secrets.py: what a rotation
-- renews, and what it takes from the active secret.
use openstack_controller.Common.{concat, String, Option, List, [], ◌∷◌}
use openstack_controller.Secrets.Fill.{Rule, Rules, names, entries, no_rules, rule, Value, Fields}
use openstack_controller.Secrets.Rotate.{SecretClass}

-- `{x: fields for x in accounts}`
unfoldable pub account_rules : (fields accounts : List String) → Rules
account_rules fields [] = no_rules
account_rules fields (account ∷ accounts) =
    rule account (names fields) (account_rules fields accounts)

abbrev only : String → Rule → Rules
only key inner = rule key inner no_rules

abbrev pub passwords : List String
passwords = "password" ∷ []

abbrev user_password : Rule
user_password = entries (only "user" (names passwords))

-- `OpenStackServiceSecret.rotation_fields[0]`
unfoldable pub service_rotated : List String → Rule
service_rotated accounts = entries (
    rule "database" user_password (
      rule "messaging" user_password (
        rule "notifications" user_password
          (only "identity" (entries (account_rules passwords accounts))))))

-- `OpenStackServiceSecret.rotation_fields[1]`, with the entries that a class adds
unfoldable pub service_immutable : (protected : List String) (more : Rules) → Rules
service_immutable [] more = more
service_immutable (account ∷ protected) more =
    rule "identity" (entries (account_rules ("username" ∷ []) (account ∷ protected))) more

-- `BarbicanSecret` and `NeutronSecret`
abbrev pub barbican_immutable : Rules
barbican_immutable = only "kek" (names [])

abbrev pub neutron_immutable : Rules
neutron_immutable = rule "ipsec_secret_key" (names []) (only "metadata_secret" (names []))

-- `OpenStackAdminSecret.rotation_fields[0]`
abbrev pub admin_rotated : Rule
admin_rotated = entries (
    rule "identity" (names passwords)
      (rule "database" (names passwords) (only "messaging" (names passwords))))

-- `DRBServiceSecret.rotation_fields[0]`
unfoldable pub drb_rotated : List String → Rule
drb_rotated accounts = entries (only "identity" (entries (account_rules passwords accounts)))

-- A class of a service, by its base name, accounts and the entries it adds to the immutable ones.
-- `MultiSecret.__init__` names the other secret.
unfoldable pub service_class :
    (base_name : String) (accounts protected : List String) (more : Rules) (created : Fields)
    (load : Value → Option Fields)
    → SecretClass
service_class base_name accounts protected more created load = record {
  base_name = base_name;
  other_name = concat base_name "-1";
  rotated_fields = service_rotated accounts;
  immutable_fields = entries (service_immutable protected more);
  created = created;
  load = load;
}
