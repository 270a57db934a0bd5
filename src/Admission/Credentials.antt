-- ===== src/Admission/Credentials.antt =====
-- `OpenStackValidator._validate_credentials`. Rotation ids are numbers from 0 on: a negative one is
-- refused as 0 is.
use openstack_controller.Common.{
  ltb, leb, ◌==◌, if◌then◌else◌, all, Dict, lookup, ℕ, ◌-◌, String, Bool, true, false, not, ◌&&◌,
  Option, none, some, [], ◌∷◌, nat_eq, string_eq,
}
use openstack_controller.Admission.Versions.{
  Verdict, refuse_if, and_then, rotation_not_positive, locked, rotation_removed, rotation_decreased,
  rotation_skipped,
}
use openstack_controller.Admission.OpenStack.{Cluster}

-- `status.credentials`: each group's `rotation_id`, if it has that key.
abbrev pub Credentials : Type 0
Credentials = Dict (Option ℕ)

-- `get_in(credentials, [group, "rotation_id"], 0)`
unfoldable pub rotation_id : String → Credentials → ℕ
rotation_id group credentials = elim (lookup group credentials) [
  | none ↦ 0
  | some entry ↦ elim entry [ none ↦ 0 | some n ↦ n ]
]

abbrev same_id : Option ℕ → Option ℕ → Bool
same_id none none = true
same_id (some a) (some b) = a == b
same_id _ _ = false

abbrev has_entry : Credentials → String → Option ℕ → Bool
has_entry credentials group id = elim (lookup group credentials) [
  | none ↦ false
  | some i ↦ same_id i id
]

-- Equality of dictionaries, which have one entry for a key.
unfoldable pub same_credentials : Credentials → Credentials → Bool
same_credentials a b = all (λ e. has_entry b e.0 e.1) a && all (λ e. has_entry a e.0 e.1) b

-- The checks of one group of the new credentials.
unfoldable pub check_rotation : ℕ → ℕ → Verdict
check_rotation old new =
    if leb new 0
    then some rotation_not_positive
    else (if ltb new old
        then some rotation_decreased
        else refuse_if (ltb 1 (new - old)) rotation_skipped)

-- The loop over the new groups. One with no rotation id ends the method.
unfoldable pub check_new : Credentials → Credentials → Verdict
check_new old [] = none
check_new old ((group, none) ∷ rest) = none
check_new old ((group, some id) ∷ rest) =
    and_then (check_rotation (rotation_id group old) id) (check_new old rest)

-- The loop over the old groups, and then the other one. One with no rotation id ends the method.
unfoldable pub check_old : Credentials → Verdict → Credentials → Verdict
check_old new then_new [] = then_new
check_old new then_new ((group, none) ∷ rest) = none
check_old new then_new ((group, some id) ∷ rest) =
    and_then (refuse_if (rotation_id group new == 0) rotation_removed) (check_old new then_new rest)

unfoldable pub validate_credentials : Cluster → Credentials → Credentials → Verdict
validate_credentials c old new =
    if same_credentials new old
    then none
    else and_then (refuse_if (not c.applied) locked) (check_old new (check_new old new) old)
