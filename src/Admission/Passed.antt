-- ===== src/Admission/Passed.antt =====
-- What an update that passes the validator has been checked for.
use openstack_controller.Admission.Versions.{
  OpenStackVersion, Refusal, Verdict, version_of, refuse_if, and_then, is_version, value,
  unknown_version, upgrade_in_progress,
}
use openstack_controller.Common.{
  eq_iff, if◌then◌else◌, ◌≡◌, refl, sym, ◌⊎◌, inl, inr, Bool, true, false, not, Option, none, some,
  arith, nat_eq, string_eq,
}
use openstack_controller.Admission.Upgrade.{IsUpgrade, check_versions-IsUpgrade}
use openstack_controller.Admission.OpenStack.{
  Cluster, Spec, update, validate, validate_openstack_upgrade, check_operation, check_update,
  same_rest,
}

pub and_then-none : (a b : Verdict) → and_then a b ≡ none → (a ≡ none) × (b ≡ none)
and_then-none none b h = (refl, h)
and_then-none (some r) b h = cc

refuse_if-none : (b : Bool) (r : Refusal) → refuse_if b r ≡ none → b ≡ false
refuse_if-none true r h = cc
refuse_if-none false r h = refl

-- What is sure of an update from one version to another.
abbrev pub Checked : Cluster → Spec → Spec → OpenStackVersion → OpenStackVersion → Type 0
Checked c old new v w =
    (value w ≡ value v) ⊎ (IsUpgrade v w × (same_rest new old ≡ true) × (c.applied ≡ true))

check_known :
    (c : Cluster) (old new : Spec) (v w : OpenStackVersion)
    → (if is_version w v
        then none
        else and_then
            (validate_openstack_upgrade v w old new)
            (refuse_if (not c.applied) upgrade_in_progress))
      ≡ none
    → Checked c old new v w
unfolding validate_openstack_upgrade
check_known c old new v w h = split (is_version w v) refl h
  where
    split :
        (b : Bool)
        → b ≡ is_version w v
        → (if b
            then none
            else and_then
                (validate_openstack_upgrade v w old new)
                (refuse_if (not c.applied) upgrade_in_progress))
          ≡ none
        → Checked c old new v w
    split true e h = inl ((eq_iff (value w) (value v)).0 (sym e))
    split false e h =
        let (upgraded, free) = and_then-none _ _ h in
        let (versions_ok, rest) = and_then-none _ _ upgraded in
        inr (
          (check_versions-IsUpgrade v w).0 versions_ok,
          ground (arith, refuse_if-none _ _ rest),
          ground (arith, refuse_if-none _ _ free),
        )

-- An update that the validator lets pass is between known versions. Where the version changes, it is
-- an upgrade to the next release or from one SLURP release to the next, nothing else in the spec
-- changes with it, and no other operation is in progress.
pub validate-Checked :
    (c : Cluster) (old new : Spec)
    → validate c (record { operation = update old; object = new }) ≡ none
    → (v : OpenStackVersion) × (w : OpenStackVersion) × (version_of old.openstack_version ≡ some v)
      × (version_of new.openstack_version ≡ some w)
      × Checked c old new v w
unfolding validate check_operation check_update
validate-Checked c old new h =
    let (_, rest) = and_then-none _ _ h in
    let (checked, _) = and_then-none _ _ rest in
    known (version_of old.openstack_version) (version_of new.openstack_version) checked
  where
    known :
        (v w : Option OpenStackVersion)
        → (elim v [
          | none ↦ some unknown_version
          | some v' ↦ elim w [
            | none ↦ some unknown_version
            | some w' ↦
                if is_version w' v'
                then none
                else and_then
                    (validate_openstack_upgrade v' w' old new)
                    (refuse_if (not c.applied) upgrade_in_progress)
          ]
        ])
          ≡ none
        → (v' : OpenStackVersion) × (w' : OpenStackVersion) × (v ≡ some v')
          × (w ≡ some w')
          × Checked c old new v' w'
    known none w h = cc
    known (some v) none h = cc
    known (some v) (some w) h = (v, w, refl, refl, check_known c old new v w h)
