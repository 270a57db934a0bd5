-- ===== src/Admission/Sections.antt =====
-- Which sections of the other features the validators accept.
use openstack_controller.Common.{
  ltb, if◌then◌else◌, length, select, all, contains, Dict, keys, values, String, ◌≡◌, refl, Bool,
  true, false, not, ◌&&◌, ◌||◌, Option, none, some, List, [], ◌∷◌, nat_eq, string_eq,
}
use openstack_controller.Admission.Storage.{Checked}
use openstack_controller.Admission.Versions.{value, train}
use openstack_controller.Admission.Features.{
  validate_database, Nova, Keystone, Federation, Database, Remote, check_federation, validate_nova,
  mandatory_fields, conf_required, is_lvm, check_ks_domains, check_remote, check_vcpu_type,
  vcpu_types, validate_keystone, check_backup_sync,
}
use openstack_controller.Admission.Accepted.{
  accepted, both_accepted, accepted-check_each, accepted-refuse_on,
}

accepted-if :
    (b : Bool) (check : Checked) {valid : Bool}
    → accepted check ≡ valid
    → accepted (if b then check else none) ≡ (not b || valid)
accepted-if true check h = h
accepted-if false check h = refl

-- Every element has the key, and every key.
abbrev pub have_fields : List String → List (List String) → Bool
have_fields fields elements =
    all (λ key. all (λ element. not (not (contains element key))) elements) fields

abbrev pub are_domains : Bool → Option (Dict (List String)) → Bool
are_domains has_domains none = true
are_domains has_domains (some domains) =
    not has_domains && have_fields mandatory_fields (values domains)

check_ks_domains-accepted :
    (has_domains : Bool) (domains : Option (Dict (List String)))
    → accepted (check_ks_domains has_domains domains) ≡ are_domains has_domains domains
unfolding check_ks_domains
check_ks_domains-accepted has_domains none = refl
check_ks_domains-accepted has_domains (some domains) =
    both_accepted _ _ _ _ (accepted-refuse_on _ _) (
      accepted-check_each _ _ mandatory_fields
        (λ key. accepted-check_each _ _ (values domains) (λ element. accepted-refuse_on _ _)))

abbrev pub is_federation : Bool → Option Federation → Bool
is_federation keycloak_enabled none = true
is_federation keycloak_enabled (some federation) =
    not (keycloak_enabled && federation.federation_enabled)
    && not
        (federation.is_oauth20 && ltb 1 (length (select (λ on. on) (values federation.providers))))

check_federation-accepted :
    (keycloak_enabled : Bool) (federation : Option Federation)
    → accepted (check_federation keycloak_enabled federation)
      ≡ is_federation keycloak_enabled federation
unfolding check_federation
check_federation-accepted keycloak_enabled none = refl
check_federation-accepted keycloak_enabled (some federation) =
    both_accepted _ _ _ _ (accepted-refuse_on _ _) (accepted-refuse_on _ _)

abbrev pub is_remote : Remote → Bool
is_remote remote =
    all (λ key. not (not (contains remote.remote_keys key))) ("conf" ∷ "path" ∷ [])
    && all (λ key. not (not (contains (keys remote.remote_conf) key)))
        (conf_required remote.remote_conf)

check_remote-accepted : (remote : Remote) → accepted (check_remote remote) ≡ is_remote remote
unfolding check_remote
check_remote-accepted remote =
    both_accepted _ _ _ _
      (accepted-check_each _ _ ("conf" ∷ "path" ∷ []) (λ key. accepted-refuse_on _ _))
      (accepted-check_each _ _ (conf_required remote.remote_conf) (λ key. accepted-refuse_on _ _))

abbrev pub is_nova : Nova → Bool
is_nova nova =
    not (nova.encryption_enabled && not (is_lvm nova.images_backend))
    && (not (ltb 1 (length (vcpu_types nova)))
        || (not (
              contains (vcpu_types nova) "host-model"
              || contains (vcpu_types nova) "host-passthrough")
            && not (ltb (value nova.nova_version) (value train))))

abbrev pub is_keystone : Keystone → Bool
is_keystone keystone =
    not (keystone.keycloak_enabled && not keystone.keycloak_url)
    && (are_domains keystone.has_domains keystone.ks_domains
        && is_federation keystone.keycloak_enabled keystone.federation)

abbrev pub is_database : Database → Bool
is_database database =
    not (database.backend_is_pv_nfs && not database.has_pv_nfs)
    && (not database.sync_enabled
        || (not (ltb 1 (length database.remotes)) && all is_remote (values database.remotes)))

-- What passes the guards, one by one.
pub sections-passed :
    (nova : Nova) (keystone : Keystone) (database : Database)
    → (accepted (validate_nova nova) ≡ is_nova nova)
      × (accepted (validate_keystone keystone) ≡ is_keystone keystone)
      × (accepted (validate_database database) ≡ is_database database)
unfolding validate_nova check_vcpu_type validate_keystone validate_database check_backup_sync
sections-passed nova keystone database = (
  both_accepted _ _ _ _ (accepted-refuse_on _ _) (
      accepted-if (ltb 1 (length (vcpu_types nova))) _
        (both_accepted _ _ _ _ (accepted-refuse_on _ _) (accepted-refuse_on _ _))),
  both_accepted _ _ _ _ (accepted-refuse_on _ _) (
      both_accepted _ _ _ _ (check_ks_domains-accepted keystone.has_domains keystone.ks_domains)
        (check_federation-accepted keystone.keycloak_enabled keystone.federation)),
  both_accepted _ _ _ _ (accepted-refuse_on _ _) (
      accepted-if database.sync_enabled _ (
        both_accepted _ _ _ _ (accepted-refuse_on _ _) (
          accepted-check_each check_remote is_remote (values database.remotes)
            check_remote-accepted))),
)
