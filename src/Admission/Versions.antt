-- ===== src/Admission/Versions.antt =====
-- `OpenStackVersion` of openstack_controller/constants.py, and the rule for upgrades of the validator
-- openstack_controller/admission/validators/openstack.py.
use openstack_controller.Common.{
  ltb, ◌==◌, if◌then◌else◌, find, ℕ, ◌-◌, String, Bool, true, false, Option, none, some, List, [],
  ◌∷◌, nat_eq, string_eq,
}

pub data OpenStackVersion : Type 0 where
  queens rocky stein train ussuri victoria wallaby xena yoga zed antelope bobcat caracal master :
      OpenStackVersion

-- `sys.maxsize` on 64-bit machines
abbrev maxsize : ℕ
maxsize = 9223372036854775807

unfoldable pub value : OpenStackVersion → ℕ
value queens = 1
value rocky = 2
value stein = 3
value train = 4
value ussuri = 5
value victoria = 6
value wallaby = 7
value xena = 8
value yoga = 9
value zed = 10
value antelope = 11
value bobcat = 12
value caracal = 13
value master = maxsize

abbrev pub versions : List OpenStackVersion
versions =
    queens ∷ rocky ∷ stein ∷ train ∷ ussuri ∷ victoria ∷ wallaby ∷ xena ∷ yoga ∷ zed ∷ antelope
    ∷ bobcat ∷ caracal ∷ master ∷ []

abbrev pub name_of : OpenStackVersion → String
name_of queens = "queens"
name_of rocky = "rocky"
name_of stein = "stein"
name_of train = "train"
name_of ussuri = "ussuri"
name_of victoria = "victoria"
name_of wallaby = "wallaby"
name_of xena = "xena"
name_of yoga = "yoga"
name_of zed = "zed"
name_of antelope = "antelope"
name_of bobcat = "bobcat"
name_of caracal = "caracal"
name_of master = "master"

-- `OpenStackVersion[name]`, `none` for its KeyError
unfoldable pub version_of : String → Option OpenStackVersion
version_of name = find (λ v. name_of v == name) versions

abbrev pub is_version : OpenStackVersion → OpenStackVersion → Bool
is_version a b = value a == value b

abbrev pub slurp_releases : List OpenStackVersion
slurp_releases = yoga ∷ antelope ∷ caracal ∷ []

-- The release before one that is in the list and not its first.
unfoldable pub release_before : OpenStackVersion → List OpenStackVersion → Option OpenStackVersion
release_before v [] = none
release_before v (a ∷ []) = none
release_before v (a ∷ b ∷ rest) =
    let later = release_before v (b ∷ rest) in if is_version b v then some a else later

-- `_upgrade_max_distance`
unfoldable pub upgrade_max_distance : OpenStackVersion → ℕ
upgrade_max_distance new = elim (release_before new slurp_releases) [
  | none ↦ 1
  | some allowed_from ↦ value new - value allowed_from
]

pub data Refusal : Type 0 where
  downgrade skip_level other_changes upgrade_in_progress : Refusal
  already_exists master_denied masakari_version baremetal_tf panko_retired : Refusal
  manila_tf manila_version encrypted_key strict_admin_version bad_schedule locked : Refusal
  rotation_removed rotation_not_positive rotation_decreased rotation_skipped : Refusal
  -- a KeyError of the validator
  unknown_version : Refusal

-- `none` where the validator raises nothing.
abbrev pub Verdict : Type 0
Verdict = Option Refusal

-- The next check, where this one raises nothing.
abbrev pub and_then : Verdict → Verdict → Verdict
and_then none next = next
and_then (some r) next = some r

abbrev pub refuse_if : Bool → Refusal → Verdict
refuse_if true r = some r
refuse_if false r = none

-- The test of `_validate_openstack_upgrade` on the two versions.
unfoldable pub check_versions : OpenStackVersion → OpenStackVersion → Verdict
check_versions old new =
    and_then (refuse_if (ltb (value new) (value old)) downgrade)
      (refuse_if (ltb (upgrade_max_distance new) (value new - value old)) skip_level)
