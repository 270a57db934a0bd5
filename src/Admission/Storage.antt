-- ===== src/Admission/Storage.antt =====
-- The validators of images, volumes and shared file systems: openstack_controller/admission/validators/
-- glance.py, cinder.py and manila.py. A key that is not in the spec has the default that the code gives it.
use openstack_controller.Common.{
  ltb, leb, ◌==◌, if◌then◌else◌, length, select, contains, Dict, lookup, values, split_char, ℕ,
  String, Bool, true, false, not, ◌&&◌, ◌||◌, Option, none, some, List, [], ◌∷◌, ◌++◌, nat_eq,
  string_eq,
}
use openstack_controller.Admission.Versions.{OpenStackVersion, value, yoga}

pub data SectionRefusal : Type 0 where
  certificate_validation either_type_or_name name_format : SectionRefusal
  two_defaults no_default two_file_backends pvc_missing pvc_keys_missing : SectionRefusal
  backup_driver_version two_backup_drivers : SectionRefusal
  no_enabled_backends no_backend_name no_driver : SectionRefusal
  encryption_without_lvm vcpu_types_exclusive vcpu_types_version vault_namespace_version :
      SectionRefusal
  no_ironic no_keycloak_url domains_twice domain_field_missing : SectionRefusal
  keycloak_and_federation many_providers : SectionRefusal
  no_pv_nfs many_remotes remote_field_missing conf_field_missing : SectionRefusal

abbrev pub Checked : Type 0
Checked = Option SectionRefusal

-- One check after the other.
abbrev pub then_check : Checked → Checked → Checked
then_check none next = next
then_check (some r) next = some r

abbrev pub refuse_on : Bool → SectionRefusal → Checked
refuse_on true r = some r
refuse_on false r = none

unfoldable pub check_each {ℓ} : {A : Type ℓ} → (A → Checked) → List A → Checked
check_each check [] = none
check_each check (a ∷ rest) = then_check (check a) (check_each check rest)

-- The options of a backend of glance; the keys of `pvc`, where it is there.
pub record ImageBackend : Type 0 where
  pub is_default : Bool
  pub has_cinder_volume_type : Bool
  pub backend_name : Option String
  pub pvc : Option (List String)

pub record Glance : Type 0 where
  pub certificate_validation_on : Bool
  pub signature_enabled : Bool
  pub backends : Dict (Dict ImageBackend)

abbrev colon : ℕ
colon = 58

abbrev comma : ℕ
comma = 44

abbrev pub has_name : ImageBackend → Bool
has_name opts = elim opts.backend_name [ none ↦ false | some name ↦ true ]

-- `len(opts["backend_name"].split(":")) != 2`
abbrev pub is_ill_named : ImageBackend → Bool
is_ill_named opts = elim opts.backend_name [
  | none ↦ false
  | some name ↦ not (length (split_char colon name) == 2)
]

unfoldable pub check_cinder_backend : ImageBackend → Checked
check_cinder_backend opts =
    then_check
      (refuse_on
        ((opts.has_cinder_volume_type && has_name opts)
          || (not opts.has_cinder_volume_type && not (has_name opts)))
        either_type_or_name)
      (refuse_on (is_ill_named opts) name_format)

-- The loop over the defaults, and the test behind it.
unfoldable pub check_defaults : (is_default_seen : Bool) → List ImageBackend → Checked
check_defaults seen [] = refuse_on (not seen) no_default
check_defaults false (opts ∷ rest) = check_defaults opts.is_default rest
check_defaults true (opts ∷ rest) =
    then_check (refuse_on opts.is_default two_defaults) (check_defaults true rest)

unfoldable pub check_file_backend : ImageBackend → Checked
check_file_backend opts = elim opts.pvc [
  | none ↦ some pvc_missing
  | some keys_of ↦
      refuse_on (not (contains keys_of "storage_class_name" && contains keys_of "size"))
        pvc_keys_missing
]

abbrev pub of_type : String → Dict (Dict ImageBackend) → List ImageBackend
of_type kind backends = elim (lookup kind backends) [ none ↦ [] | some found ↦ values found ]

abbrev pub all_backends : Dict (Dict ImageBackend) → List ImageBackend
all_backends [] = []
all_backends ((kind, found) ∷ backends) = values found ++ all_backends backends

abbrev pub is_empty_list : List ImageBackend → Bool
is_empty_list [] = true
is_empty_list (b ∷ backends) = false

unfoldable pub validate_glance_backends : Dict (Dict ImageBackend) → Checked
validate_glance_backends backends =
    if is_empty_list (all_backends backends)
    then none
    else then_check (check_each check_cinder_backend (of_type "cinder" backends)) (
        then_check (check_defaults false (all_backends backends)) (
          then_check (refuse_on (leb 2 (length (of_type "file" backends))) two_file_backends)
            (check_each check_file_backend (of_type "file" backends))))

-- `GlanceValidator.validate`
unfoldable pub validate_glance : Glance → Checked
validate_glance glance =
    then_check
      (refuse_on (glance.certificate_validation_on && not glance.signature_enabled)
        certificate_validation)
      (validate_glance_backends glance.backends)

-- The section of one backend of volumes or shares: what of it is there.
pub record BackendConf : Type 0 where
  pub has_backend_name : Bool
  pub has_driver : Bool

pub record StorageBackend : Type 0 where
  pub enabled : Bool
  -- `enabled_backends` or `enabled_share_backends` of the section DEFAULT
  pub enabled_backends : String
  pub conf : Dict BackendConf

abbrev is_text : String → Bool
is_text s = not (s == "")

abbrev pub listed : StorageBackend → List String
listed opts = select is_text (split_char comma opts.enabled_backends)

abbrev pub conf_of : StorageBackend → String → BackendConf
conf_of opts backend = elim (lookup backend opts.conf) [
  | none ↦ record { has_backend_name = false; has_driver = false }
  | some found ↦ found
]

unfoldable pub check_conf : StorageBackend → String → Checked
check_conf opts backend =
    then_check (refuse_on (not (conf_of opts backend).has_backend_name) no_backend_name)
      (refuse_on (not (conf_of opts backend).has_driver) no_driver)

-- The loop of `_check_extra_volume_backend`, and of `_check_share_backend`.
unfoldable pub check_backend : StorageBackend → Checked
check_backend opts =
    if opts.enabled
    then then_check (refuse_on (length (listed opts) == 0) no_enabled_backends)
        (check_each (check_conf opts) (listed opts))
    else none

pub record Cinder : Type 0 where
  pub openstack_version : OpenStackVersion
  -- the backup section is there and not empty
  pub has_backup : Bool
  pub backup_enabled : Bool
  -- whether each driver is enabled
  pub drivers : Dict Bool
  pub volume_backends : Dict StorageBackend

-- `CinderValidator.validate`
unfoldable pub validate_cinder : Cinder → Checked
validate_cinder cinder =
    then_check
      (refuse_on
        (not (length cinder.drivers == 0) && ltb (value cinder.openstack_version) (value yoga))
        backup_driver_version)
      (then_check
        (refuse_on
          (cinder.has_backup
            && cinder.backup_enabled
            && ltb 1 (length (select (λ on. on) (values cinder.drivers))))
          two_backup_drivers)
        (check_each check_backend (values cinder.volume_backends)))

-- `ManilaValidator.validate`
unfoldable pub validate_manila : Dict StorageBackend → Checked
validate_manila share_backends = check_each check_backend (values share_backends)
