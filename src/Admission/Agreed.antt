-- ===== src/Admission/Agreed.antt =====
-- What passes the guards of the sections is what is right.
use openstack_controller.Common.{
  ltb, leb, ◌==◌, if◌then◌else◌, length, all, length-select, contains, Dict, lookup, values,
  length-split_char, ℕ, suc, String, ◌≡◌, refl, ap, ◌∙◌, Bool, true, false, not, ◌&&◌, ◌||◌, Option,
  none, some, List, [], ◌∷◌, arith, nat_eq, string_eq,
}
use openstack_controller.Admission.Versions.{value, train}
use openstack_controller.Admission.Storage.{
  ImageBackend, Glance, StorageBackend, Cinder, BackendConf, conf_of, of_type, listed,
  validate_glance, validate_cinder, validate_manila,
}
use openstack_controller.Admission.Features.{
  Nova, Keystone, Federation, Database, Remote, conf_required, vcpu_types, is_lvm, validate_nova,
  validate_keystone, validate_database,
}
use openstack_controller.Admission.Accepted.{accepted, is_cinder_backend, is_glance}
use openstack_controller.Admission.Stored.{is_configured, is_cinder, storage-passed}
use openstack_controller.Admission.Sections.{
  is_nova, have_fields, are_domains, is_federation, is_remote, sections-passed,
}
use openstack_controller.Admission.Right.{
  is_volume_backend, is_image_section, is_described, is_storage_backend, is_volume_section,
  is_compute_section, are_right_domains, is_right_federation, is_identity_section, is_right_remote,
  is_database_section, has_key, is_text,
}

all-agree {ℓ} :
    {A : Type ℓ} (p q : A → Bool) (l : List A) → ((a : A) → p a ≡ q a) → all p l ≡ all q l
all-agree p q [] h = refl
all-agree p q (a ∷ l) h = ap (λ b. b && all p l) (h a) ∙ ap (λ b. q a && b) (all-agree p q l h)

all-and {ℓ} :
    {A : Type ℓ} (p q : A → Bool) (l : List A) → (all p l && all q l) ≡ all (λ a. p a && q a) l
all-and p q [] = refl
all-and p q (a ∷ l) = ground (arith, all-and p q l)

not-not : (b : Bool) → not (not b) ≡ b
not-not true = refl
not-not false = refl

is_cinder_backend-agrees : (opts : ImageBackend) → is_cinder_backend opts ≡ is_volume_backend opts
is_cinder_backend-agrees opts = split opts.has_cinder_volume_type opts.backend_name
  where
    split :
        (b : Bool) (name : Option String)
        → is_cinder_backend (record opts { has_cinder_volume_type = b; backend_name = name })
          ≡ is_volume_backend (record opts { has_cinder_volume_type = b; backend_name = name })
    split true none = refl
    split false none = refl
    split true (some name) = refl
    split false (some name) = ground (arith, length-split_char 58 name)

is_glance-agrees : (glance : Glance) → is_glance glance ≡ is_image_section glance
is_glance-agrees glance = ground (
  arith,
  all-agree is_cinder_backend is_volume_backend (of_type "cinder" glance.backends)
      is_cinder_backend-agrees,
)

abbrev conf_or_none : Option BackendConf → BackendConf
conf_or_none o = elim o [
  | none ↦ record { has_backend_name = false; has_driver = false }
  | some found ↦ found
]

abbrev is_found : Option BackendConf → Bool
is_found o = elim o [ none ↦ false | some found ↦ found.has_backend_name && found.has_driver ]

described :
    (opts : StorageBackend) (name : String)
    → (not (not (conf_of opts name).has_backend_name) && not (not (conf_of opts name).has_driver))
      ≡ is_described opts.conf name
described opts name = split (lookup name opts.conf)
  where
    split :
        (o : Option BackendConf)
        → (not (not (conf_or_none o).has_backend_name) && not (not (conf_or_none o).has_driver))
          ≡ is_found o
    split none = refl
    split (some found) = ground arith

is_configured-agrees : (opts : StorageBackend) → is_configured opts ≡ is_storage_backend opts
is_configured-agrees opts =
    split opts.enabled (length (listed opts))
      (all-agree _ (is_described opts.conf) (listed opts) (described opts))
  where
    split :
        (b : Bool) (n : ℕ) {p q : Bool}
        → p ≡ q
        → (if b then not (n == 0) && p else true) ≡ (not b || (ltb 0 n && q))
    split true n h = ground (arith, h)
    split false n h = refl

is_cinder-agrees : (cinder : Cinder) → is_cinder cinder ≡ is_volume_section cinder
is_cinder-agrees cinder = ground (
  arith,
  length-select (λ (on : Bool). on) (values cinder.drivers),
  all-agree is_configured is_storage_backend (values cinder.volume_backends) is_configured-agrees,
)

is_nova-agrees : (nova : Nova) → is_nova nova ≡ is_compute_section nova
is_nova-agrees nova =
    split nova.images_backend (contains (vcpu_types nova) "host-model")
      (contains (vcpu_types nova) "host-passthrough") (length-split_char 44 nova.vcpu_type)
  where
    split :
        (backend : Option String) (a b : Bool) {parts commas : ℕ}
        → parts ≡ suc commas
        → (not (nova.encryption_enabled && not (is_lvm backend))
            && (not (ltb 1 parts)
                || (not (a || b) && not (ltb (value nova.nova_version) (value train)))))
          ≡ ((not nova.encryption_enabled || is_text "lvm" backend)
              && ((commas == 0)
                  || ((not a && not b) && leb (value train) (value nova.nova_version))))
    split none a b h = ground (arith, h)
    split (some backend) a b h = ground (arith, h)

are_domains-agrees :
    (b : Bool) (domains : Option (Dict (List String)))
    → are_domains b domains ≡ are_right_domains b domains
are_domains-agrees b none = refl
are_domains-agrees b (some domains) =
    ap (λ x. not b && x)
      (all-two (values domains)
        ∙ all-and (λ d. contains d "config") (λ d. contains d "enabled") (values domains))
  where
    all-two :
        (l : List (List String))
        → have_fields ("config" ∷ "enabled" ∷ []) l
          ≡ (all (λ d. contains d "config") l && all (λ d. contains d "enabled") l)
    all-two l = ground (
      arith,
      all-agree (λ (d : List String). not (not (contains d "config"))) (λ d. contains d "config") l
          (λ d. not-not (contains d "config")),
      all-agree (λ (d : List String). not (not (contains d "enabled"))) (λ d. contains d "enabled")
          l (λ d. not-not (contains d "enabled")),
    )

is_federation-agrees :
    (b : Bool) (federation : Option Federation)
    → is_federation b federation ≡ is_right_federation b federation
is_federation-agrees b none = refl
is_federation-agrees b (some federation) =
    ground (arith, length-select (λ (on : Bool). on) (values federation.providers))

abbrev text_of : Option String → String
text_of o = elim o [ none ↦ "" | some found ↦ found ]

is_remote-agrees : (remote : Remote) → is_remote remote ≡ is_right_remote remote
unfolding conf_required
is_remote-agrees remote =
    split (lookup "type" remote.remote_conf) (lookup "provider" remote.remote_conf)
  where
    split :
        (kind provider : Option String)
        → (all (λ key. not (not (contains remote.remote_keys key))) ("conf" ∷ "path" ∷ [])
            && all
                (λ key. not (not (has_key remote.remote_conf key)))
                ("type"
                  ∷ (if text_of kind == "s3"
                      then "provider"
                        ∷ "access_key_id"
                        ∷ "secret_access_key"
                        ∷ (if text_of provider == "Ceph" then "endpoint" ∷ [] else [])
                      else [])))
          ≡ ((contains remote.remote_keys "conf" && contains remote.remote_keys "path")
              && (has_key remote.remote_conf "type"
                  && (not (is_text "s3" kind)
                      || ((has_key remote.remote_conf "provider"
                            && has_key remote.remote_conf "access_key_id"
                            && has_key remote.remote_conf "secret_access_key")
                          && (not (is_text "Ceph" provider)
                              || has_key remote.remote_conf "endpoint")))))
    split none none = ground arith
    split none (some p) = ground arith
    split (some k) none = ground arith
    split (some k) (some p) = ground arith

-- The validators of images, volumes and shared file systems accept exactly the right sections. Images: where
-- certificates are validated there are signatures, and there are no backends, or one default among all, each
-- backend of volumes with either a type or a name in which one colon stands, and at most one file backend,
-- which has its class and its size. Volumes: drivers of backups only from Yoga on, at most one of them on
-- while backups are, and every enabled backend names, between commas, one or more backends, each with a name
-- and a driver. Shares: the same of their backends.
pub storage-accepted :
    (glance : Glance) (cinder : Cinder) (shares : Dict StorageBackend)
    → (accepted (validate_glance glance) ≡ is_image_section glance)
      × (accepted (validate_cinder cinder) ≡ is_volume_section cinder)
      × (accepted (validate_manila shares) ≡ all is_storage_backend (values shares))
storage-accepted glance cinder shares =
    let (images, volumes, shared) = storage-passed glance cinder shares in
    (
      images ∙ is_glance-agrees glance,
      volumes ∙ is_cinder-agrees cinder,
      shared ∙ all-agree is_configured is_storage_backend (values shares) is_configured-agrees,
    )

-- The validators of compute, identity and databases accept exactly the right sections. Compute: encryption
-- only with LVM; of several vcpu types none is the host's model or its passthrough, and they need Train.
-- Identity: an enabled keycloak has a url; domains are given in one way only, each with its config and whether
-- it is enabled; federation is not on beside keycloak, and at most one provider is on with oauth20. Databases:
-- a backend pv_nfs has its section; where backups are synchronised there is at most one remote, with a path
-- and a conf that has a type, with s3 a provider and its two keys, and with s3 at Ceph an endpoint.
pub sections-accepted :
    (nova : Nova) (keystone : Keystone) (database : Database)
    → (accepted (validate_nova nova) ≡ is_compute_section nova)
      × (accepted (validate_keystone keystone) ≡ is_identity_section keystone)
      × (accepted (validate_database database) ≡ is_database_section database)
sections-accepted nova keystone database =
    let (compute, identity, databases) = sections-passed nova keystone database in
    (
      compute ∙ is_nova-agrees nova,
      identity
          ∙ ap
              (λ d.
                not (keystone.keycloak_enabled && not keystone.keycloak_url)
                && (d && is_federation keystone.keycloak_enabled keystone.federation))
              (are_domains-agrees keystone.has_domains keystone.ks_domains)
          ∙ ap
              (λ x.
                not (keystone.keycloak_enabled && not keystone.keycloak_url)
                && (are_right_domains keystone.has_domains keystone.ks_domains && x))
              (is_federation-agrees keystone.keycloak_enabled keystone.federation)
          ∙ ap
              (λ x.
                x
                && (are_right_domains keystone.has_domains keystone.ks_domains
                    && is_right_federation keystone.keycloak_enabled keystone.federation))
              (in_other_words keystone.keycloak_enabled keystone.keycloak_url),
      databases
          ∙ ground (
            arith,
            all-agree is_remote is_right_remote (values database.remotes) is_remote-agrees,
          ),
    )
  where
    in_other_words : (a b : Bool) → not (a && not b) ≡ (not a || b)
    in_other_words a b = ground arith
