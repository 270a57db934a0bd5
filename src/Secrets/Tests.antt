-- ===== src/Secrets/Tests.antt =====
-- Runs of the generators and of rotations, and the theorems at concrete secrets.
use openstack_controller.Secrets.Filled.{at_path, fill-origin}
use openstack_controller.Secrets.Service.{next_data-accounts}
use openstack_controller.Secrets.Protected.{value_at}
use openstack_controller.Secrets.Generated.{IsName, IsPassword, generate_credentials-bounds}
use openstack_controller.Secrets.Classes.{
  service_class, barbican_immutable, service_rotated, service_immutable, account_rules,
}
use openstack_controller.Secrets.Rotated.{IsPromoted, rotate-kept, rotate-again, rotate-IsPromoted}
use openstack_controller.Common.{
  ◌==◌, length, some_inj, ℕ, zero, suc, ◌+◌, ◌*◌, ◌≤◌, ◌<◌, String, ◌≡◌, refl, ap, ◌≢◌, false,
  Option, none, some, List, [], ◌∷◌, arith, nat_eq, string_eq,
}
use openstack_controller.Secrets.Fill.{
  copy_fields, set_item, Fields, Value, Rule, dict, text, field, end, names, entries, no_rules,
  rule, fill, fill_entries, item,
}
use openstack_controller.Secrets.Rotate.{
  by_priority, Cluster, Found, SecretClass, rotated, already_rotated, rotate, next_data,
  k8s_secrets, rotate_sorted, get_secrets_sorted, collect, note_secret, sort_descending,
  insert_sorted, set_priority_entry,
}
use openstack_controller.Secrets.Names.{
  Credentials, generate_name, generate_credentials, generate_password,
}

abbrev bytes : ℕ → ℕ → List ℕ
bytes call zero = []
bytes call (suc n) = (call * 100 + n) ∷ bytes call n

bytes-sized : (call n : ℕ) → length (bytes call n) ≡ n
bytes-sized call zero = refl
bytes-sized call (suc n) = omega (arith, bytes-sized call n)

generate_name-test : generate_name bytes 0 "nova" 8 ≡ some "novaDdCc"
unfolding generate_name generate_password
generate_name-test = refl

generate_credentials-bounds_example :
    (c : Credentials) × (generate_credentials bytes 3 "neutron" 4 6 ≡ some c)
    × IsName "neutron" 4 c.username
    × IsPassword 6 c.password
generate_credentials-bounds_example = generate_credentials-bounds bytes bytes-sized 3 "neutron" 4 6

abbrev account : String → String → Value
account username password =
    dict (field "username" (text username) (field "password" (text password) end))

abbrev secret : String → String → Fields
secret username password = field "database" (dict (field "user" (account username password) end)) (
    field "messaging" (dict (field "user" (account username password) end)) (
      field "notifications" (dict (field "user" (account username password) end)) (
        field "identity"
          (dict (
            field "nova" (account username password)
              (field "octavia" (account username password) end)))
          (field "memcached" (text password) (field "kek" (text password) end)))))

abbrev load : Value → Option Fields
load (text s) = none
load (dict fields) = some fields

loads : (v : Value) (f : Fields) → load v ≡ some f → v ≡ dict f
loads (text s) f h = cc
loads (dict fields) f h = ap dict (some_inj h)

abbrev octavia : SecretClass
octavia =
    service_class "passwords" ("nova" ∷ "octavia" ∷ []) ("octavia" ∷ []) barbican_immutable
      (secret "created" "fresh") load

abbrev active : Found
active = ("passwords", record { priority = 0; content = secret "old" "old" })

abbrev backup : Found
backup = ("passwords-1", record { priority = 0; content = secret "spare" "spare" })

abbrev cluster : Cluster
cluster = active ∷ backup ∷ ("other", active.1) ∷ []

abbrev mixed_accounts : Fields
mixed_accounts =
    field "nova" (account "spare" "fresh") (field "octavia" (account "old" "fresh") end)

abbrev new_content : Fields
new_content = field "database" (dict (field "user" (account "spare" "fresh") end)) (
    field "messaging" (dict (field "user" (account "spare" "fresh") end)) (
      field "notifications" (dict (field "user" (account "spare" "fresh") end)) (
        field "identity" (dict mixed_accounts)
          (field "memcached" (text "spare") (field "kek" (text "old") end)))))

octavia-next_data : next_data octavia active.1.content backup.1.content ≡ some new_content
unfolding next_data service_class service_rotated service_immutable account_rules fill fill_entries
    copy_fields item set_item
octavia-next_data = refl

octavia-k8s_secrets : k8s_secrets octavia cluster ≡ active ∷ backup ∷ []
unfolding k8s_secrets service_class get_secrets_sorted collect note_secret by_priority
    sort_descending insert_sorted set_priority_entry
octavia-k8s_secrets = refl

octavia-distinct : (octavia.base_name == octavia.other_name) ≡ false
unfolding service_class
octavia-distinct = refl

one_positive : 0 < 1
one_positive = omega arith

rotate-IsPromoted_example :
    IsPromoted octavia active backup 1 new_content cluster (rotate octavia 1 cluster)
rotate-IsPromoted_example =
    rotate-IsPromoted octavia cluster active backup 1 new_content octavia-distinct
      octavia-k8s_secrets one_positive octavia-next_data

one_again : 1 ≤ 1
one_again = omega arith

rotate-again_example :
    rotate octavia 1 (rotate octavia 1 cluster).1 ≡ (already_rotated, (rotate octavia 1 cluster).1)
rotate-again_example =
    rotate-again octavia cluster active backup 1 1 new_content octavia-distinct octavia-k8s_secrets
      one_positive octavia-next_data one_again

one_secret-raised : (rotate octavia 1 (active ∷ [])).0 ≢ rotated
unfolding rotate rotate_sorted k8s_secrets service_class get_secrets_sorted collect note_secret
    by_priority sort_descending insert_sorted set_priority_entry
one_secret-raised = λ h. cc

rotate-kept_example : (rotate octavia 1 (active ∷ [])).1 ≡ active ∷ []
rotate-kept_example = rotate-kept octavia 1 (active ∷ []) one_secret-raised

next_data-accounts_example :
    (value_at ("identity" ∷ "octavia" ∷ "password" ∷ []) new_content
      ≡ value_at ("identity" ∷ "octavia" ∷ "password" ∷ []) (secret "created" "fresh"))
    × (value_at ("identity" ∷ "octavia" ∷ "username" ∷ []) new_content
        ≡ value_at ("identity" ∷ "octavia" ∷ "username" ∷ []) active.1.content)
next_data-accounts_example =
    next_data-accounts "passwords" ("nova" ∷ "octavia" ∷ []) ("octavia" ∷ []) barbican_immutable
      (secret "created" "fresh") load loads active.1.content backup.1.content new_content "octavia"
      (refl, (refl, tt)) (refl, tt) refl (refl, tt, tt) refl octavia-next_data

abbrev old_pair : Value
old_pair = dict (field "a" (account "old" "old") (field "b" (text "old") end))

abbrev new_pair : Value
new_pair = dict (field "a" (account "new" "new") (field "b" (text "new") end))

abbrev pair_rule : Rule
pair_rule = entries (rule "a" (names ("password" ∷ [])) no_rules)

abbrev filled_pair : Value
filled_pair = dict (field "a" (account "old" "new") (field "b" (text "old") end))

pair-fill : fill new_pair old_pair pair_rule ≡ some filled_pair
unfolding fill fill_entries copy_fields item set_item
pair-fill = refl

fill-origin_example :
    at_path ("a" ∷ "password" ∷ []) filled_pair ≡ at_path ("a" ∷ "password" ∷ []) new_pair
fill-origin_example =
    fill-origin new_pair old_pair pair_rule filled_pair ("a" ∷ "password" ∷ []) (refl, tt, tt)
      pair-fill
