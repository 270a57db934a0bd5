-- ===== src/Admission/OpenStack.antt =====
-- `OpenStackValidator.validate` of openstack_controller/admission/validators/openstack.py.
--
-- A spec is what the validator reads of it, and the rest as one canonical text. Features that are
-- left out stand for their defaults.
use openstack_controller.Admission.Cron.{is_schedule, Text}
use openstack_controller.Common.{
  ltb, leb, ◌==◌, if◌then◌else◌, all, contains, codes, String, Bool, true, false, not, ◌&&◌, ◌||◌,
  none, some, List, [], ◌∷◌, nat_eq, string_eq,
}
use openstack_controller.Admission.Versions.{
  masakari_version, other_changes, manila_version, panko_retired, yoga, Verdict, OpenStackVersion,
  refuse_if, and_then, value, is_version, version_of, baremetal_tf, manila_tf, bad_schedule,
  master_denied, victoria, strict_admin_version, unknown_version, check_versions, encrypted_key,
  already_exists, xena, upgrade_in_progress,
}

pub record Spec : Type 0 where
  pub openstack_version : String
  pub preset : String
  -- `features.services`
  pub services : List String
  pub strict_admin : Bool
  -- `features.ssl.public_endpoints.api_key`
  pub api_key : String
  -- schedules under `features.database.cleanup` of the services that the validator names
  pub cleanup_schedules : List String
  pub backup_schedule : String
  pub others : String

pub data Operation : Type 0 where
  create : Operation
  update : (old : Spec) → Operation

pub record Request : Type 0 where
  pub operation : Operation
  pub object : Spec

-- What the validator asks the API server.
pub record Cluster : Type 0 where
  -- there is one OpenStackDeployment
  pub osdpl_exists : Bool
  -- `status.osdpl.state` of the OpenStackDeploymentStatus is APPLIED
  pub applied : Bool

abbrev same_texts : List String → List String → Bool
same_texts [] [] = true
same_texts (a ∷ s) (b ∷ t) = a == b && same_texts s t
same_texts _ _ = false

abbrev same_bool : Bool → Bool → Bool
same_bool true b = b
same_bool false b = not b

-- The specs without their versions are equal.
unfoldable pub same_rest : Spec → Spec → Bool
same_rest a b =
    a.preset == b.preset
    && same_texts a.services b.services
    && same_bool a.strict_admin b.strict_admin
    && a.api_key == b.api_key
    && same_texts a.cleanup_schedules b.cleanup_schedules
    && a.backup_schedule == b.backup_schedule
    && a.others == b.others

-- A lookup of the version that may be a KeyError.
abbrev with_version : String → (OpenStackVersion → Verdict) → Verdict
with_version name check = elim (version_of name) [ none ↦ some unknown_version | some v ↦ check v ]

-- `_validate_openstack_upgrade`, where both versions are known
unfoldable pub validate_openstack_upgrade :
    OpenStackVersion → OpenStackVersion → Spec → Spec → Verdict
validate_openstack_upgrade old new old_spec new_spec =
    and_then (check_versions old new) (refuse_if (not (same_rest new_spec old_spec)) other_changes)

-- The part of `validate` for an update.
unfoldable pub check_update : Cluster → Spec → Spec → Verdict
check_update c old_spec new_spec = with_version old_spec.openstack_version λ old.
    with_version new_spec.openstack_version λ new.
      if is_version new old
      then none
      else and_then (validate_openstack_upgrade old new old_spec new_spec)
          (refuse_if (not c.applied) upgrade_in_progress)

unfoldable pub check_operation : Cluster → Request → Verdict
check_operation c r = elim r.operation [
  | create ↦ refuse_if c.osdpl_exists already_exists
  | update old ↦ check_update c old r.object
]

abbrev has_service : Spec → String → Bool
has_service spec s = contains spec.services s

abbrev is_before : OpenStackVersion → OpenStackVersion → Bool
is_before a b = ltb (value a) (value b)

unfoldable pub check_masakari_allowed : Spec → Verdict
check_masakari_allowed spec =
    with_version spec.openstack_version
      λ v. refuse_if (has_service spec "instance-ha" && is_before v victoria) masakari_version

unfoldable pub check_baremetal_allowed : Spec → Verdict
check_baremetal_allowed spec =
    refuse_if (has_service spec "baremetal" && spec.preset == "compute-tf") baremetal_tf

unfoldable pub check_panko_allowed : Spec → Verdict
check_panko_allowed spec =
    with_version spec.openstack_version
      λ v. refuse_if (has_service spec "event" && leb (value xena) (value v)) panko_retired

unfoldable pub check_manila_allowed : Spec → Verdict
check_manila_allowed spec = with_version spec.openstack_version λ v.
    and_then
      (refuse_if (has_service spec "shared-file-system" && spec.preset == "compute-tf") manila_tf)
      (refuse_if (has_service spec "shared-file-system" && is_before v yoga) manila_version)

abbrev is_prefix : Text → Text → Bool
is_prefix [] t = true
is_prefix (a ∷ s) [] = false
is_prefix (a ∷ s) (b ∷ t) = a == b && is_prefix s t

abbrev has_part : Text → Text → Bool
has_part s [] = is_prefix s []
has_part s (b ∷ t) = is_prefix s (b ∷ t) || has_part s t

-- `s in t`
abbrev has_text : String → String → Bool
has_text s t = has_part (codes s) (codes t)

unfoldable pub deny_encrypted_api_key : Spec → Verdict
deny_encrypted_api_key spec =
    refuse_if (has_text "BEGIN ENCRYPTED PRIVATE KEY" spec.api_key) encrypted_key

unfoldable pub deny_strict_admin_policy : Spec → Verdict
deny_strict_admin_policy spec =
    with_version spec.openstack_version
      λ v. refuse_if (spec.strict_admin && is_before v yoga) strict_admin_version

-- A schedule that is not set is the empty text.
abbrev is_good_schedule : String → Bool
is_good_schedule s = s == "" || is_schedule (codes s)

unfoldable pub check_schedules : Spec → Verdict
check_schedules spec =
    and_then (refuse_if (not (all is_good_schedule spec.cleanup_schedules)) bad_schedule)
      (refuse_if (not (is_good_schedule spec.backup_schedule)) bad_schedule)

-- The checks after the one of the operation, in their order.
unfoldable pub check_spec : Spec → Verdict
check_spec spec = and_then (check_masakari_allowed spec) (
    and_then (check_baremetal_allowed spec) (
      and_then (check_panko_allowed spec) (
        and_then (check_manila_allowed spec) (
          and_then (deny_encrypted_api_key spec)
            (and_then (deny_strict_admin_policy spec) (check_schedules spec))))))

-- `validate`
unfoldable pub validate : Cluster → Request → Verdict
validate c r =
    and_then (refuse_if (r.object.openstack_version == "master") master_denied)
      (and_then (check_operation c r) (check_spec r.object))
