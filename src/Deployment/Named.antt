-- ===== src/Deployment/Named.antt =====
-- Which services the deployment handlers apply, upgrade and delete.
use openstack_controller.Common.{
  ◌==◌, eq_iff, if◌then◌else◌, Bool-cases, select, contains, AreDistinct, String, ◌≡◌, refl, ap,
  ◌∙◌, inl, inr, Bool, true, false, not, ◌&&◌, Option, none, some, List, [], ◌∷◌, arith, nat_eq,
  string_eq,
}
use mathlib.Core.Path.{fun_ext}
use openstack_controller.Deployment.Handle.{
  upgrade_order, Change, Deployment, distinct, difference, deleted_by, is_field, services_to_apply,
  services_to_delete, get_os_services_for_upgrade,
}

pub contains-distinct : (l : List String) (s : String) → contains (distinct l) s ≡ contains l s
unfolding distinct
contains-distinct [] s = refl
contains-distinct (x ∷ l) s = elim (Bool-cases (x == s)) [
  | inl e ↦ ground (arith, e, contains-distinct l s, ap (contains (distinct l)) ((eq_iff x s).0 e))
  | inr e ↦ ground (arith, e, contains-distinct l s)
]

pub distinct-AreDistinct : (l : List String) → AreDistinct (distinct l)
unfolding distinct
distinct-AreDistinct [] = tt
distinct-AreDistinct (x ∷ l) = split (contains (distinct l) x) refl (distinct-AreDistinct l)
  where
    split :
        (b : Bool)
        → contains (distinct l) x ≡ b
        → AreDistinct (distinct l)
        → AreDistinct (if b then distinct l else x ∷ distinct l)
    split true e rest = rest
    split false e rest = (e, rest)

contains-select :
    (p : String → Bool) (l : List String) (s : String)
    → contains (select p l) s ≡ (contains l s && p s)
contains-select p [] s = refl
contains-select p (x ∷ l) s = elim (Bool-cases (x == s)) [
  | inl e ↦ ground (arith, e, contains-select p l s, ap p ((eq_iff x s).0 e))
  | inr e ↦ ground (arith, e, contains-select p l s)
]

abbrev or_earlier : Option Change → Option Change → Option Change
or_earlier none earlier = earlier
or_earlier (some c) earlier = some c

-- The latest change of the list of services.
abbrev pub last_of_services : List Change → Option Change
last_of_services [] = none
last_of_services (c ∷ diff) =
    or_earlier (last_of_services diff)
      (if is_field c.field ("spec" ∷ "features" ∷ "services" ∷ []) then some c else none)

-- The service was in the list before the latest change of it, and is not any more.
abbrev pub is_removed : Option Change → String → Bool
is_removed none s = false
is_removed (some c) s = contains c.old s && not (contains c.new s)

abbrev removed_or : Option Change → Bool → String → Bool
removed_or none before s = before
removed_or (some c) before s = is_removed (some c) s

deleted_by-is_removed :
    (diff : List Change) (found : List String) (s : String)
    → contains (deleted_by diff found) s ≡ removed_or (last_of_services diff) (contains found s) s
unfolding difference
deleted_by-is_removed [] found s = refl
deleted_by-is_removed (c ∷ diff) found s =
    deleted_by-is_removed diff _ s
    ∙ later (last_of_services diff) (is_field c.field ("spec" ∷ "features" ∷ "services" ∷ [])) (
        contains-select (λ x. not (contains c.new x)) (distinct c.old) s
        ∙ ap (λ b. b && not (contains c.new s)) (contains-distinct c.old s))
  where
    later :
        (o : Option Change) (b : Bool)
        → contains (difference c.old c.new) s ≡ is_removed (some c) s
        → removed_or o (contains (if b then difference c.old c.new else found) s) s
          ≡ removed_or (or_earlier o (if b then some c else none)) (contains found s) s
    later none true h = h
    later none false h = refl
    later (some d) b h = refl

pub services_to_delete-is_removed :
    (osdpl : Deployment) (s : String)
    → contains (services_to_delete osdpl) s ≡ is_removed (last_of_services osdpl.diff) s
unfolding services_to_delete
services_to_delete-is_removed osdpl s =
    deleted_by-is_removed osdpl.diff [] s ∙ none_removed (last_of_services osdpl.diff)
  where
    none_removed : (o : Option Change) → removed_or o false s ≡ is_removed o s
    none_removed none = refl
    none_removed (some c) = refl

-- The enabled services that are upgraded, in their order: what others depend on comes first.
abbrev pub to_upgrade : Deployment → List String
to_upgrade osdpl = select (contains osdpl.services) (
    "identity" ∷ "placement" ∷ "image" ∷ "networking" ∷ "compute" ∷ "block-storage"
    ∷ "load-balancer" ∷ "dns" ∷ "key-manager" ∷ "orchestration" ∷ "dashboard" ∷ "object-storage"
    ∷ "instance-ha" ∷ "shared-file-system" ∷ [])

pub get_os_services_for_upgrade-to_upgrade :
    (osdpl : Deployment) → get_os_services_for_upgrade (services_to_apply osdpl) ≡ to_upgrade osdpl
unfolding get_os_services_for_upgrade services_to_apply
get_os_services_for_upgrade-to_upgrade osdpl =
    ap (λ (p : String → Bool). select p upgrade_order)
      (fun_ext (λ s. contains-distinct osdpl.services s))
