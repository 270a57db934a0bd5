-- ===== src/Admission/Upgrade.antt =====
-- Which upgrades of OpenStack the validator lets pass.
use openstack_controller.Common.{
  ◌==◌, if◌then◌else◌, all, ℕ, ◌+◌, ◌≡◌, refl, ◌↔◌, ◌⊎◌, Bool, true, false, not, ◌&&◌, ◌||◌, none,
  some, arith, nat_eq, string_eq,
}
use openstack_controller.Admission.Versions.{
  OpenStackVersion, queens, rocky, stein, train, ussuri, victoria, wallaby, xena, yoga, zed,
  antelope, bobcat, caracal, master, value, versions, Verdict, check_versions, upgrade_max_distance,
  release_before,
}

-- The upgrades that are meant: to the same or the next release, and from one SLURP release to the
-- next one.
abbrev pub IsUpgrade : OpenStackVersion → OpenStackVersion → Type 0
IsUpgrade old new =
    (value new ≡ value old)
    ⊎ (value new ≡ value old + 1)
    ⊎ ((value old ≡ value yoga) × (value new ≡ value antelope))
    ⊎ ((value old ≡ value antelope) × (value new ≡ value caracal))

abbrev is_upgrade : OpenStackVersion → OpenStackVersion → Bool
is_upgrade old new =
    value new == value old
    || value new == value old + 1
    || (value old == 9 && value new == 11)
    || (value old == 11 && value new == 13)

abbrev passes : Verdict → Bool
passes none = true
passes (some r) = false

abbrev agrees : OpenStackVersion → OpenStackVersion → Bool
agrees old new =
    if passes (check_versions old new) then is_upgrade old new else not (is_upgrade old new)

all-at : (p : OpenStackVersion → Bool) → all p versions ≡ true → (v : OpenStackVersion) → p v ≡ true
all-at p h queens = ground (arith, h)
all-at p h rocky = ground (arith, h)
all-at p h stein = ground (arith, h)
all-at p h train = ground (arith, h)
all-at p h ussuri = ground (arith, h)
all-at p h victoria = ground (arith, h)
all-at p h wallaby = ground (arith, h)
all-at p h xena = ground (arith, h)
all-at p h yoga = ground (arith, h)
all-at p h zed = ground (arith, h)
all-at p h antelope = ground (arith, h)
all-at p h bobcat = ground (arith, h)
all-at p h caracal = ground (arith, h)
all-at p h master = ground (arith, h)

every_pair : all (λ old. all (λ new. agrees old new) versions) versions ≡ true
unfolding value check_versions upgrade_max_distance release_before
every_pair = refl

is_upgrade-IsUpgrade :
    (old new : OpenStackVersion) → (is_upgrade old new ≡ true) ↔ IsUpgrade old new
unfolding value
is_upgrade-IsUpgrade old new = numbers (value old) (value new)
  where
    numbers :
        (m n : ℕ)
        → ((n == m || n == m + 1 || (m == 9 && n == 11) || (m == 11 && n == 13)) ≡ true)
          ↔ ((n ≡ m) ⊎ (n ≡ m + 1) ⊎ ((m ≡ 9) × (n ≡ 11)) ⊎ ((m ≡ 11) × (n ≡ 13)))
    numbers m n = ground arith

pair : (old new : OpenStackVersion) → agrees old new ≡ true
pair old new =
    all-at (λ n. agrees old n) (all-at (λ o. all (λ n. agrees o n) versions) every_pair old) new

passes_iff :
    (v : Verdict) (b : Bool) → (if passes v then b else not b) ≡ true → (v ≡ none) ↔ (b ≡ true)
passes_iff none b h = (λ _. h, λ _. refl)
passes_iff (some r) true h = cc
passes_iff (some r) false h = (λ e. cc, λ e. cc)

-- The validator lets a change of version pass exactly where it is to the same or the next release, or
-- from Yoga to Antelope or from Antelope to Caracal: no downgrade and no other skipped release.
pub check_versions-IsUpgrade :
    (old new : OpenStackVersion) → (check_versions old new ≡ none) ↔ IsUpgrade old new
check_versions-IsUpgrade old new =
    let (to, from) = passes_iff (check_versions old new) (is_upgrade old new) (pair old new) in
    let (to', from') = is_upgrade-IsUpgrade old new in (λ e. to' (to e), λ u. from (from' u))
