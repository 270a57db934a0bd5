-- ===== src/Admission/Right.antt =====
-- The sections that are right, in the words of what they need, not of what is refused.
use openstack_controller.Common.{
  ltb, leb, ◌==◌, length, select, count, all, contains, Dict, lookup, keys, values, occurrences,
  split_char, ℕ, String, Bool, true, false, not, ◌&&◌, ◌||◌, Option, none, some, List, nat_eq,
  string_eq,
}
use openstack_controller.Admission.Versions.{value, yoga, train}
use openstack_controller.Admission.Storage.{
  ImageBackend, Glance, StorageBackend, Cinder, BackendConf, of_type, all_backends,
}
use openstack_controller.Admission.Features.{Nova, Keystone, Federation, Database, Remote}

abbrev colon : ℕ
colon = 58

abbrev comma : ℕ
comma = 44

-- A backend of volumes has a type, or it has a name of two parts.
abbrev pub is_volume_backend : ImageBackend → Bool
is_volume_backend opts = elim opts.backend_name [
  | none ↦ opts.has_cinder_volume_type
  | some name ↦ not opts.has_cinder_volume_type && (occurrences colon name == 1)
]

abbrev pub is_file_backend : ImageBackend → Bool
is_file_backend opts = elim opts.pvc [
  | none ↦ false
  | some given ↦ contains given "storage_class_name" && contains given "size"
]

abbrev pub is_image_section : Glance → Bool
is_image_section glance =
    (glance.signature_enabled || not glance.certificate_validation_on)
    && ((length (all_backends glance.backends) == 0)
        || (all is_volume_backend (of_type "cinder" glance.backends)
            && ((count (λ b. b.is_default) (all_backends glance.backends) == 1)
                && (leb (length (of_type "file" glance.backends)) 1
                    && all is_file_backend (of_type "file" glance.backends)))))

-- The names between commas.
abbrev pub names_in : String → List String
names_in text = select (λ s. not (s == "")) (split_char comma text)

abbrev pub is_described : Dict BackendConf → String → Bool
is_described conf name = elim (lookup name conf) [
  | none ↦ false
  | some found ↦ found.has_backend_name && found.has_driver
]

-- The backend is off, or it names one or more others, each of them with a name and a driver.
abbrev pub is_storage_backend : StorageBackend → Bool
is_storage_backend opts =
    not opts.enabled
    || (ltb 0 (length (names_in opts.enabled_backends))
        && all (is_described opts.conf) (names_in opts.enabled_backends))

abbrev pub is_volume_section : Cinder → Bool
is_volume_section cinder =
    ((length cinder.drivers == 0) || leb (value yoga) (value cinder.openstack_version))
    && ((not (cinder.has_backup && cinder.backup_enabled)
          || leb (count (λ on. on) (values cinder.drivers)) 1)
        && all is_storage_backend (values cinder.volume_backends))

abbrev pub is_text : String → Option String → Bool
is_text text none = false
is_text text (some other) = other == text

-- Several types of processors are types of their own, from Train on.
abbrev pub is_compute_section : Nova → Bool
is_compute_section nova =
    (not nova.encryption_enabled || is_text "lvm" nova.images_backend)
    && ((occurrences comma nova.vcpu_type == 0)
        || ((not (contains (split_char comma nova.vcpu_type) "host-model")
              && not (contains (split_char comma nova.vcpu_type) "host-passthrough"))
            && leb (value train) (value nova.nova_version)))

abbrev pub are_right_domains : Bool → Option (Dict (List String)) → Bool
are_right_domains has_domains none = true
are_right_domains has_domains (some domains) =
    not has_domains && all (λ d. contains d "config" && contains d "enabled") (values domains)

abbrev pub is_right_federation : Bool → Option Federation → Bool
is_right_federation keycloak_enabled none = true
is_right_federation keycloak_enabled (some federation) =
    (not keycloak_enabled || not federation.federation_enabled)
    && (not federation.is_oauth20 || leb (count (λ on. on) (values federation.providers)) 1)

abbrev pub is_identity_section : Keystone → Bool
is_identity_section keystone =
    (not keystone.keycloak_enabled || keystone.keycloak_url)
    && (are_right_domains keystone.has_domains keystone.ks_domains
        && is_right_federation keystone.keycloak_enabled keystone.federation)

abbrev pub has_key : Dict String → String → Bool
has_key conf key = contains (keys conf) key

-- A type; with s3 a provider and its keys, too; with Ceph an endpoint, too.
abbrev pub is_right_conf : Dict String → Bool
is_right_conf conf =
    has_key conf "type"
    && (not (is_text "s3" (lookup "type" conf))
        || ((has_key conf "provider"
              && has_key conf "access_key_id"
              && has_key conf "secret_access_key")
            && (not (is_text "Ceph" (lookup "provider" conf)) || has_key conf "endpoint")))

abbrev pub is_right_remote : Remote → Bool
is_right_remote remote =
    (contains remote.remote_keys "conf" && contains remote.remote_keys "path")
    && is_right_conf remote.remote_conf

abbrev pub is_database_section : Database → Bool
is_database_section database =
    (not database.backend_is_pv_nfs || database.has_pv_nfs)
    && (not database.sync_enabled
        || (leb (length database.remotes) 1 && all is_right_remote (values database.remotes)))
