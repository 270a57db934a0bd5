-- ===== src/Admission/Features.antt =====
-- The validators of other features: openstack_controller/admission/validators/nova.py, barbican.py,
-- ironic.py, keystone.py and database.py. A key that is not in the spec has the default that the code
-- gives it.
use openstack_controller.Common.{
  ltb, ◌==◌, if◌then◌else◌, length, select, contains, Dict, lookup, keys, values, split_char,
  String, Bool, false, not, ◌&&◌, ◌||◌, Option, none, some, List, [], ◌∷◌, nat_eq, string_eq,
}
use openstack_controller.Admission.Versions.{OpenStackVersion, value, train, victoria}
use openstack_controller.Admission.Storage.{
  Checked, encryption_without_lvm, vcpu_types_exclusive, vcpu_types_version,
  vault_namespace_version, no_ironic, no_keycloak_url, domains_twice, domain_field_missing,
  keycloak_and_federation, many_providers, no_pv_nfs, many_remotes, remote_field_missing,
  conf_field_missing, refuse_on, then_check, check_each,
}

pub record Nova : Type 0 where
  pub nova_version : OpenStackVersion
  pub encryption_enabled : Bool
  pub images_backend : Option String
  pub vcpu_type : String

abbrev pub is_lvm : Option String → Bool
is_lvm none = false
is_lvm (some backend) = backend == "lvm"

abbrev pub vcpu_types : Nova → List String
vcpu_types nova = split_char 44 nova.vcpu_type

-- `_check_vcpu_type`
unfoldable pub check_vcpu_type : Nova → Checked
check_vcpu_type nova =
    if ltb 1 (length (vcpu_types nova))
    then then_check
        (refuse_on
          (contains (vcpu_types nova) "host-model" || contains (vcpu_types nova) "host-passthrough")
          vcpu_types_exclusive)
        (refuse_on (ltb (value nova.nova_version) (value train)) vcpu_types_version)
    else none

-- `NovaValidator.validate`
unfoldable pub validate_nova : Nova → Checked
validate_nova nova =
    then_check
      (refuse_on (nova.encryption_enabled && not (is_lvm nova.images_backend))
        encryption_without_lvm)
      (check_vcpu_type nova)

pub record Barbican : Type 0 where
  pub barbican_version : OpenStackVersion
  pub vault_enabled : Bool
  pub vault_namespace : Bool

-- `BarbicanValidator.validate`
unfoldable pub validate_barbican : Barbican → Checked
validate_barbican barbican =
    refuse_on
      (barbican.vault_enabled
        && barbican.vault_namespace
        && ltb (value barbican.barbican_version) (value victoria))
      vault_namespace_version

-- `IronicValidator.validate`, on whether the section is there and not empty
unfoldable pub validate_ironic : Bool → Checked
validate_ironic has_ironic = refuse_on (not has_ironic) no_ironic

pub record Federation : Type 0 where
  pub federation_enabled : Bool
  -- `oidc_auth_type` is oauth20
  pub is_oauth20 : Bool
  -- whether each provider is enabled
  pub providers : Dict Bool

pub record Keystone : Type 0 where
  pub keycloak_enabled : Bool
  pub keycloak_url : Bool
  pub has_domains : Bool
  -- the keys of each of `ks_domains`, where it is there
  pub ks_domains : Option (Dict (List String))
  -- the section `federation`, where it is there and not empty
  pub federation : Option Federation

abbrev pub mandatory_fields : List String
mandatory_fields = "config" ∷ "enabled" ∷ []

unfoldable pub check_ks_domains : Bool → Option (Dict (List String)) → Checked
check_ks_domains has_domains none = none
check_ks_domains has_domains (some domains) = then_check (refuse_on has_domains domains_twice) (
    check_each
      (λ key.
        check_each (λ element. refuse_on (not (contains element key)) domain_field_missing)
          (values domains))
      mandatory_fields)

unfoldable pub check_federation : (keycloak_enabled : Bool) → Option Federation → Checked
check_federation keycloak_enabled none = none
check_federation keycloak_enabled (some federation) =
    then_check
      (refuse_on (keycloak_enabled && federation.federation_enabled) keycloak_and_federation)
      (refuse_on
        (federation.is_oauth20 && ltb 1 (length (select (λ on. on) (values federation.providers))))
        many_providers)

-- `KeystoneValidator.validate`
unfoldable pub validate_keystone : Keystone → Checked
validate_keystone keystone =
    then_check (refuse_on (keystone.keycloak_enabled && not keystone.keycloak_url) no_keycloak_url)
      (then_check (check_ks_domains keystone.has_domains keystone.ks_domains)
        (check_federation keystone.keycloak_enabled keystone.federation))

-- A remote: the keys it has, and its `conf`.
pub record Remote : Type 0 where
  pub remote_keys : List String
  pub remote_conf : Dict String

pub record Database : Type 0 where
  pub backend_is_pv_nfs : Bool
  pub has_pv_nfs : Bool
  pub sync_enabled : Bool
  pub remotes : Dict Remote

-- The fields that `conf` must have.
unfoldable pub conf_required : Dict String → List String
conf_required conf =
    "type"
    ∷ (if get_text "type" conf == "s3"
        then "provider"
          ∷ "access_key_id"
          ∷ "secret_access_key"
          ∷ (if get_text "provider" conf == "Ceph" then "endpoint" ∷ [] else [])
        else [])
  where
    get_text : String → Dict String → String
    get_text key conf = elim (lookup key conf) [ none ↦ "" | some found ↦ found ]

unfoldable pub check_remote : Remote → Checked
check_remote remote =
    then_check
      (check_each (λ key. refuse_on (not (contains remote.remote_keys key)) remote_field_missing)
        ("conf" ∷ "path" ∷ []))
      (check_each
        (λ key. refuse_on (not (contains (keys remote.remote_conf) key)) conf_field_missing)
        (conf_required remote.remote_conf))

-- `_check_backup_sync`
unfoldable pub check_backup_sync : Database → Checked
check_backup_sync database =
    if database.sync_enabled
    then then_check (refuse_on (ltb 1 (length database.remotes)) many_remotes)
        (check_each check_remote (values database.remotes))
    else none

-- `DatabaseValidator.validate`
unfoldable pub validate_database : Database → Checked
validate_database database =
    then_check (refuse_on (database.backend_is_pv_nfs && not database.has_pv_nfs) no_pv_nfs)
      (check_backup_sync database)
