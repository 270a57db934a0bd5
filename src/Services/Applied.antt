-- ===== src/Services/Applied.antt =====
-- The releases after a service is applied.
use openstack_controller.Common.{
  ◌==◌, eq_iff, eq_refl, if◌then◌else◌, Bool-cases, select, All, contains, AreDistinct, keys,
  String, ◌≡◌, refl, sym, ap, ◌∙◌, subst, inl, inr, Bool, true, false, not, ◌||◌, Option, none,
  some, List, [], ◌∷◌, map, arith, nat_eq, string_eq,
}
use openstack_controller.Services.World.{
  continue, World, Method, Result, ok, raised, each, ◌>>=◌, state_applying,
}
use openstack_controller.Services.Helm.{
  Program, install, delete, install_bundle, delete_not_active_releases,
}
use openstack_controller.Services.Base.{
  phase_applied, Service, Release, set_children_status, cleanup_immutable_resources,
  set_service_status, named_values, apply, render,
}
use openstack_controller.Services.Keeps.{Keeps, Keeps-pure, Keeps-bind}
use openstack_controller.Services.Triple.{
  Triple-Always, Triple, Outcome, Always, Triple-bind, Triple-weaken, Triple-invariant,
}
use openstack_controller.Services.Releases.{
  install-Triple, install-other, delete-Triple, delete-other, IsHelm, same_release, HasRelease,
}

abbrev AllInstalled : List (String × String) → World → Type 0
AllInstalled releases w = All (λ r. HasRelease r.0 (some r.1) w) releases

abbrev AllGone : List String → World → Type 0
AllGone gone w = All (λ n. HasRelease n none w) gone

-- What a method keeps, and what it does.
Triple-both {ℓ} :
    {A : Type ℓ} {m : Method A} {P Q : World → Type 0}
    → Triple Always Q Always m
    → Triple P P Always m
    → Triple P (λ w. P w × Q w) Always m
Triple-both {A = A} {m = m} {P = P} {Q = Q} does keeps = record {
  at = λ w h. both (m w) (keeps.at w h) (does.at w tt);
}
  where
    both :
        (r : Result A × World)
        → Outcome P Always r
        → Outcome Q Always r
        → Outcome (λ w. P w × Q w) Always r
    both (ok a, w) h q = (h, q)
    both (raised e, w) h q = tt

Triple-kept {ℓ} :
    {A : Type ℓ} {m : Method A} (name : String) (given : Option String)
    → Keeps (same_release name) m
    → Triple (HasRelease name given) (HasRelease name given) Always m
Triple-kept name given keeps =
    Triple-weaken (Triple-invariant (λ w h. keeps.at w ∙ h)) (λ w h. h) (λ w h. tt)

-- No name of the list is this one.
abbrev AllOther : String → List String → Type 0
AllOther name others = All (λ n. (n == name) ≡ false) others

other_of :
    (name : String) (others : List String) → contains others name ≡ false → AllOther name others
other_of name [] h = tt
other_of name (n ∷ others) h = (ground (arith, h), other_of name others (ground (arith, h)))

module _ (helm : Program) (is_helm : IsHelm helm) where
  install_bundle-other :
      (name : String) (releases : List (String × String))
      → AllOther name (keys releases)
      → Keeps (same_release name) (each (install helm) releases)
  unfolding each
  install_bundle-other name [] h = Keeps-pure (same_release name) tt
  install_bundle-other name (r ∷ releases) (h, hs) =
      Keeps-bind (same_release name) (install-other helm is_helm name r h)
        (λ t. install_bundle-other name releases hs)

  install_bundle-Triple :
      (releases : List (String × String))
      → AreDistinct (keys releases)
      → Triple Always (AllInstalled releases) Always (each (install helm) releases)
  unfolding each
  install_bundle-Triple [] h = record { at = λ w t. tt }
  install_bundle-Triple (r ∷ releases) (once, h) =
      Triple-bind {M = HasRelease r.0 (some r.1)} (install-Triple helm is_helm r.0 r.1) (λ t.
        Triple-both (install_bundle-Triple releases h) (
          Triple-kept r.0 (some r.1)
            (install_bundle-other r.0 releases (other_of r.0 (keys releases) once))))

  delete-other_all :
      (name : String) (gone : List String)
      → AllOther name gone
      → Keeps (same_release name) (each (delete helm) gone)
  unfolding each
  delete-other_all name [] h = Keeps-pure (same_release name) tt
  delete-other_all name (n ∷ gone) (h, hs) =
      Keeps-bind (same_release name) (delete-other helm is_helm name n h)
        (λ t. delete-other_all name gone hs)

  delete-stays_gone :
      (name n : String)
      → Triple (HasRelease name none) (HasRelease name none) Always (delete helm n)
  delete-stays_gone name n = record {
    at = λ w h. elim (Bool-cases (n == name)) [
      | inl e ↦
          subst (λ m. Outcome (HasRelease m none) Always (delete helm n w)) ((eq_iff n name).0 e)
            ((delete-Triple helm is_helm n).at w tt)
      | inr e ↦ (Triple-kept name none (delete-other helm is_helm name n e)).at w h
    ];
  }

  deletes-stay_gone :
      (name : String) (gone : List String)
      → Triple (HasRelease name none) (HasRelease name none) Always (each (delete helm) gone)
  unfolding each
  deletes-stay_gone name [] = record { at = λ w h. h }
  deletes-stay_gone name (n ∷ gone) =
      Triple-bind {M = HasRelease name none} (delete-stays_gone name n)
        (λ t. deletes-stay_gone name gone)

  deletes-Triple :
      (gone : List String) → Triple Always (AllGone gone) Always (each (delete helm) gone)
  unfolding each
  deletes-Triple [] = record { at = λ w t. tt }
  deletes-Triple (n ∷ gone) =
      Triple-bind {M = HasRelease n none} (delete-Triple helm is_helm n)
        (λ t. Triple-both (deletes-Triple gone) (deletes-stay_gone n gone))

  -- The names that are removed are not among the installed ones.
  selected-other :
      (names available : List String) (name : String)
      → contains names name ≡ true
      → AllOther name (select (λ n. not (contains names n)) available)
  selected-other names [] name h = tt
  selected-other names (n ∷ available) name h =
      chosen (contains names n) refl (selected-other names available name h)
    where
      chosen :
          (b : Bool)
          → contains names n ≡ b
          → AllOther name (select (λ m. not (contains names m)) available)
          → AllOther name (
              if not b
              then n ∷ select (λ m. not (contains names m)) available
              else select (λ m. not (contains names m)) available)
      chosen true e rest = rest
      chosen false e rest = (
        elim (Bool-cases (n == name)) [
          | inl s ↦ let wrong = sym e ∙ ap (contains names) ((eq_iff n name).0 s) ∙ h in cc
          | inr s ↦ s
        ],
        rest,
      )

  installed_after :
      (releases : List (String × String)) (gone : List String)
      → All (λ r. AllOther r.0 gone) releases
      → (w : World) → AllInstalled releases w
      → AllInstalled releases (each (delete helm) gone w).1
  installed_after [] gone h w t = tt
  installed_after (r ∷ releases) gone (h, hs) w (here, rest) =
      ((delete-other_all r.0 gone h).at w ∙ here, installed_after releases gone hs w rest)

  others_selected :
      (available names : List String) (releases : List (String × String))
      → ((x : String) → contains (keys releases) x ≡ true → contains names x ≡ true)
      → All (λ r. AllOther r.0 (select (λ n. not (contains names n)) available)) releases
  others_selected available names [] h = tt
  others_selected available names (r ∷ releases) h = (
    selected-other names available r.0
        (h r.0 (ap (λ b. b || contains (keys releases) r.0) (eq_refl r.0))),
    others_selected available names releases (λ x found. h x (ground (arith, found))),
  )

  -- The releases are those of the list, and none of the available others.
  abbrev pub IsDeployed : List (String × String) → (available : List String) → World → Type 0
  IsDeployed releases available w =
      AllInstalled releases w × AllGone (select (λ n. not (contains (keys releases) n)) available) w

  module _ (self : Service) where
    -- The part of `apply` behind the rendering.
    rest_of : List Release → Method (Unit {0})
    rest_of releases =
        each (λ release. cleanup_immutable_resources helm self releases) releases >>= λ t.
        install_bundle helm (map named_values releases) >>= λ t.
        delete_not_active_releases helm (map named_values releases) self.available_releases >>= λ t.
        set_children_status helm self phase_applied

    rest_of-Triple :
        (releases : List Release)
        → AreDistinct (keys (map named_values releases))
        → Triple Always
            (IsDeployed (map named_values releases) self.available_releases)
            Always
            (rest_of releases)
    unfolding rest_of set_children_status set_service_status install_bundle
        delete_not_active_releases
    rest_of-Triple releases h =
        let all = map named_values releases in
        let gone = select (λ n. not (contains (keys all) n)) self.available_releases in
        Triple-bind {M = Always} (Triple-Always _) (λ t.
          Triple-bind {M = AllInstalled all} (install_bundle-Triple all h) (λ t.
            Triple-bind {M = IsDeployed all self.available_releases}
              (Triple-both (deletes-Triple gone) (
                Triple-weaken
                  (Triple-invariant (
                    installed_after all gone
                      (others_selected self.available_releases (keys all) all (λ x found. found))))
                  (λ w h. h) (λ w h. tt)))
              (λ t. record { at = λ w h. h })))

    -- A service that is applied, where the call returns, has left every rendered release with its values,
    -- and none of its available releases that were not rendered, whatever helm had before and however
    -- many attempts failed in between. The release names are distinct, and helm does what is documented.
    pub apply-IsDeployed :
        (w : World) (releases : List Release)
        → self.render (set_service_status helm self state_applying w) ≡ ok releases
        → AreDistinct (keys (map named_values releases))
        → Outcome
            (IsDeployed (map named_values releases) self.available_releases)
            Always
            (apply helm self w)
    unfolding apply ◌>>=◌ render set_children_status rest_of
    apply-IsDeployed w releases rendered h =
        let start = set_service_status helm self state_applying w in
        subst
          (λ r.
            Outcome (IsDeployed (map named_values releases) self.available_releases) Always
              (continue (rest_of) r start))
          (sym rendered) ((rest_of-Triple releases h).at start tt)
