-- ===== src/Services/Objects.antt =====
-- Which objects are deleted because helm could not change them: `_guess_and_delete` of
-- openstack_controller/helm.py.
use openstack_controller.Common.{
  if◌then◌else◌, any, contains, String, ◌≡◌, refl, Bool, true, false, ◌||◌, List, [], ◌∷◌, nat_eq,
  string_eq,
}
use openstack_controller.Services.World.{
  Result, ok, raised, temporary, World, each, ◌>>=◌, continue,
}
use openstack_controller.Services.Helm.{
  Program, delete_match, same_object, delete_object, guess_and_delete,
}

abbrev pub is_there : (String × String) → World → Bool
is_there object world = any (λ o. same_object o object) world.objects

abbrev pub is_match : List (String × String) → (String × String) → Bool
is_match matches object = any (λ m. same_object m object) matches

module _ (helm : Program) where
  abbrev pub is_manual : (String × String) → Bool
  is_manual object = contains helm.manual_kinds object.0

  -- The matches before the first that is to be updated by hand.
  abbrev pub until_manual : List (String × String) → List (String × String)
  until_manual [] = []
  until_manual (m ∷ matches) =
      let rest = until_manual matches in if is_manual m then [] else m ∷ rest

  -- The branches of `delete_match`.
  abbrev tried : (a b c : Bool) → (String × String) → World → Result (Unit {0}) × World
  tried a b c m w =
      if a
      then (raised temporary, w)
      else (if b then (ok tt, (if c then delete_object m w else w)) else (ok tt, w))

  delete_match-answer :
      (m : String × String) (w : World)
      → (delete_match helm m w).0 ≡ (if is_manual m then raised temporary else ok tt)
  unfolding delete_match
  delete_match-answer m w =
      split (is_manual m) (any (λ x. same_object x m) w.objects) (helm.is_gone m)
    where
      split : (a b c : Bool) → (tried a b c m w).0 ≡ (if a then raised temporary else ok tt)
      split true b c = refl
      split false true c = refl
      split false false c = refl

  pub guess_and_delete-answer :
      (matches : List (String × String)) (w : World)
      → (guess_and_delete helm matches w).0
        ≡ (if any is_manual matches then raised temporary else ok tt)
  unfolding guess_and_delete each ◌>>=◌
  guess_and_delete-answer [] w = refl
  guess_and_delete-answer (m ∷ matches) w =
      first (is_manual m) (delete_match helm m w).0 (delete_match-answer m w)
        (guess_and_delete-answer matches (delete_match helm m w).1)
    where
      first :
          (b : Bool) (r : Result (Unit {0}))
          → r ≡ (if b then raised temporary else ok tt)
          → (each (delete_match helm) matches (delete_match helm m w).1).0
            ≡ (if any is_manual matches then raised temporary else ok tt)
          → (continue (λ t. each (delete_match helm) matches) r (delete_match helm m w).1).0
            ≡ (if b || any is_manual matches then raised temporary else ok tt)
      first true (raised e) h later = h
      first true (ok a) h later = cc
      first false (raised e) h later = cc
      first false (ok a) h later = later
