-- ===== src/Admission/Rotation.antt =====
-- What the validator lets happen to the rotation ids of credentials.
use openstack_controller.Common.{
  ◌==◌, eq_iff, Bool-cases, all, lookup, ℕ, ◌+◌, ◌≤◌, ◌<◌, String, ◌≡◌, refl, ap, subst, ◌≢◌, inl,
  inr, Bool, true, false, not, ◌&&◌, ◌↔◌, none, some, [], ◌∷◌, ◌++◌, arith, nat_eq, string_eq,
}
use openstack_controller.Admission.Credentials.{
  Credentials, rotation_id, validate_credentials, check_old, check_rotation, check_new,
  same_credentials,
}
use openstack_controller.Admission.OpenStack.{Cluster}
use openstack_controller.Admission.Versions.{Verdict, refuse_if, rotation_removed, and_then, locked}
use openstack_controller.Admission.Passed.{and_then-none}

-- Each group has a rotation id.
abbrev pub is_complete : Credentials → Bool
is_complete credentials = all (λ e. elim e.1 [ none ↦ false | some n ↦ true ]) credentials

check_old-none :
    (new old : Credentials) (then_new : Verdict)
    → is_complete old ≡ true
    → check_old new then_new old ≡ none
    → then_new ≡ none
unfolding check_old
check_old-none new [] then_new h e = e
check_old-none new ((g, none) ∷ old) then_new h e = cc
check_old-none new ((g, some n) ∷ old) then_new h e =
    check_old-none new old then_new h (and_then-none _ _ e).1

check_old-kept :
    (new old : Credentials) (then_new : Verdict) (group : String) (id : ℕ)
    → is_complete old ≡ true
    → check_old new then_new old ≡ none
    → lookup group old ≡ some (some id)
    → rotation_id group new ≢ 0
unfolding check_old
check_old-kept new [] then_new group id h e found = cc
check_old-kept new ((g, none) ∷ old) then_new group id h e found = cc
check_old-kept new ((g, some n) ∷ old) then_new group id h e found =
    let (first, rest) =
      and_then-none (refuse_if (rotation_id g new == 0) rotation_removed)
        (check_old new then_new old) e in
    elim (Bool-cases (g == group)) [
      | inl s ↦ λ z. ground (
        arith,
        first,
        z,
        (eq_iff g group).0 s,
        ap (λ k. rotation_id k new) ((eq_iff g group).0 s),
      )
      | inr s ↦ check_old-kept new old then_new group id h rest (rw s at found)
    ]

check_rotation-step :
    (old new : ℕ) → check_rotation old new ≡ none → (0 < new) × (old ≤ new) × (new ≤ old + 1)
unfolding check_rotation
check_rotation-step old new h = (ground (arith, h), ground (arith, h), ground (arith, h))

check_new-step :
    (old new : Credentials) (group : String) (id : ℕ)
    → is_complete new ≡ true
    → check_new old new ≡ none
    → lookup group new ≡ some (some id)
    → (0 < id) × (rotation_id group old ≤ id) × (id ≤ rotation_id group old + 1)
unfolding check_new
check_new-step old [] group id h e found = cc
check_new-step old ((g, none) ∷ new) group id h e found = cc
check_new-step old ((g, some n) ∷ new) group id h e found =
    let (first, rest) = and_then-none _ _ e in
    elim (Bool-cases (g == group)) [
      | inl s ↦
          here n ((eq_iff g group).0 s) (check_rotation-step _ n first) (id_inj (rw s at found))
      | inr s ↦ check_new-step old new group id h rest (rw s at found)
    ]
  where
    id_inj : some (some n) ≡ some (some id) → n ≡ id
    id_inj e = cc

    here :
        (n : ℕ)
        → g ≡ group
        → (0 < n) × (rotation_id g old ≤ n) × (n ≤ rotation_id g old + 1)
        → n ≡ id
        → (0 < id) × (rotation_id group old ≤ id) × (id ≤ rotation_id group old + 1)
    here n same bounds e =
        subst (λ k. (0 < k) × (rotation_id group old ≤ k) × (k ≤ rotation_id group old + 1)) e
          (subst (λ k. (0 < n) × (rotation_id k old ≤ n) × (n ≤ rotation_id k old + 1)) same bounds)

-- What is sure of credentials that differ from the old ones.
abbrev pub Rotated : Cluster → Credentials → Credentials → Type 0
Rotated c old new =
    (c.applied ≡ true)
    × ((group : String) (id : ℕ)
        → lookup group new ≡ some (some id)
        → (0 < id) × (rotation_id group old ≤ id) × (id ≤ rotation_id group old + 1))
    × ((group : String) (id : ℕ) → lookup group old ≡ some (some id) → rotation_id group new ≢ 0)

-- Where all groups have rotation ids, a change of the credentials that the validator lets pass comes
-- while no other operation is in progress, removes no rotation id, and leaves each one as it was or one
-- more, and above 0.
pub validate_credentials-Rotated :
    (c : Cluster) (old new : Credentials)
    → is_complete old ≡ true
    → is_complete new ≡ true
    → same_credentials new old ≡ false
    → validate_credentials c old new ≡ none
    → Rotated c old new
unfolding validate_credentials
validate_credentials-Rotated c old new ho hn changed h =
    let (free, rest) =
      and_then-none (refuse_if (not c.applied) locked) (check_old new (check_new old new) old)
        (rw changed at h) in
    (
      ground (arith, free),
      λ group id found.
          check_new-step old new group id hn (check_old-none new old (check_new old new) ho rest)
            found,
      λ group id found. check_old-kept new old (check_new old new) group id ho rest found,
    )

-- Each of these groups has a rotation id in the credentials.
abbrev pub are_kept : Credentials → Credentials → Bool
are_kept new before = all (λ e. not (rotation_id e.0 new == 0)) before

check_old-until :
    (new before after : Credentials) (group : String) (then_new : Verdict)
    → is_complete before ≡ true
    → (check_old new then_new (before ++ (group, none) ∷ after) ≡ none)
      ↔ (are_kept new before ≡ true)
unfolding check_old
check_old-until new [] after group then_new h = (λ e. refl, λ e. refl)
check_old-until new ((g, none) ∷ before) after group then_new h = cc
check_old-until new ((g, some n) ∷ before) after group then_new h =
    let rest = check_old-until new before after group then_new h in
    split (rotation_id g new == 0) rest
  where
    split :
        (b : Bool)
        → ((check_old new then_new (before ++ (group, none) ∷ after) ≡ none)
            ↔ (are_kept new before ≡ true))
        → (and_then
              (refuse_if b rotation_removed)
              (check_old new then_new (before ++ (group, none) ∷ after))
            ≡ none)
          ↔ ((not b && are_kept new before) ≡ true)
    split true rest = (λ e. cc, λ e. cc)
    split false rest = rest

-- The first old group with no rotation id ends the checks. A change of the credentials then passes exactly
-- where no other operation is in progress and the groups before that one keep a rotation id, whatever
-- happens to the others, and whatever the new rotation ids are.
pub validate_credentials-unchecked :
    (c : Cluster) (before after new : Credentials) (group : String)
    → is_complete before ≡ true
    → same_credentials new (before ++ (group, none) ∷ after) ≡ false
    → (validate_credentials c (before ++ (group, none) ∷ after) new ≡ none)
      ↔ ((c.applied ≡ true) × (are_kept new before ≡ true))
unfolding validate_credentials
validate_credentials-unchecked c before after new group complete changed =
    rw changed
      (split c.applied (check_old-until new before after group (check_new old new) complete))
  where
    old : Credentials
    old = before ++ (group, none) ∷ after

    split :
        (b : Bool)
        → ((check_old new (check_new old new) old ≡ none) ↔ (are_kept new before ≡ true))
        → (and_then (refuse_if (not b) locked) (check_old new (check_new old new) old) ≡ none)
          ↔ ((b ≡ true) × (are_kept new before ≡ true))
    split true rest = (λ e. (refl, rest.0 e), λ e. rest.1 e.1)
    split false rest = (λ e. cc, λ e. cc)
