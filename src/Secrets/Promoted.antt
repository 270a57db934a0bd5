-- ===== src/Secrets/Promoted.antt =====
-- What a rotation does to the two secrets of a class.
use openstack_controller.Secrets.Fill.{Fields}
use openstack_controller.Common.{
  leb, ◌==◌, eq_iff, eq_refl, if◌then◌else◌, lookup, insert, lookup-insert, ℕ, ◌<◌, String, ◌≡◌,
  refl, sym, ap, ◌∙◌, subst, ◌⊎◌, inl, inr, Bool, true, false, Option, none, some, List, [], ◌∷◌,
  arith, nat_eq, string_eq,
}
use openstack_controller.Secrets.Rotate.{
  insert_sorted, Cluster, Found, Stored, get_secrets_sorted, collect, sort_descending,
  set_priority_entry, by_priority, note_secret, set_secret_priority, save, merge_fields,
}

-- The order of two secrets that are there.
abbrev pub ordered : Found → Found → List Found
ordered a b =
    if a.1.priority == 0
    then (if b.1.priority == 0 then a ∷ b ∷ [] else b ∷ a ∷ [])
    else (if b.1.priority == 0
        then a ∷ b ∷ []
        else (if a.1.priority == b.1.priority
            then b ∷ []
            else (if leb b.1.priority a.1.priority then a ∷ b ∷ [] else b ∷ a ∷ [])))

abbrev first_two : (a b : String) → Option Stored → Option Stored → List Found
first_two a b s t = by_priority (note_secret b t (note_secret a s ([], [])))

two_found : (a b : String) (s t : Stored) → first_two a b (some s) (some t) ≡ ordered (a, s) (b, t)
unfolding by_priority note_secret sort_descending insert_sorted set_priority_entry
two_found a b s t = ground arith

pub get_secrets_sorted-pair :
    (cluster : Cluster) (a b : String) (s t : Stored)
    → lookup a cluster ≡ some s
    → lookup b cluster ≡ some t
    → get_secrets_sorted cluster (a ∷ b ∷ []) ≡ ordered (a, s) (b, t)
unfolding get_secrets_sorted collect
get_secrets_sorted-pair cluster a b s t found also =
    subst (λ o. first_two a b o (lookup b cluster) ≡ ordered (a, s) (b, t)) (sym found)
      (subst (λ o. first_two a b (some s) o ≡ ordered (a, s) (b, t)) (sym also) (two_found a b s t))

-- Two sorted secrets are the two names', in one of the orders.
abbrev IsPair : (a b : String) (active backup : Found) → Cluster → Type 0
IsPair a b active backup cluster =
    (active.0 ≡ a)
    × (backup.0 ≡ b)
    × (lookup a cluster ≡ some active.1)
    × (lookup b cluster ≡ some backup.1)

ordered_two :
    (a b : String) (s t : Stored) (active backup : Found)
    → ordered (a, s) (b, t) ≡ active ∷ backup ∷ []
    → ((active ≡ (a, s)) × (backup ≡ (b, t))) ⊎ ((active ≡ (b, t)) × (backup ≡ (a, s)))
ordered_two a b s t active backup h = ground (arith, h)

first_two_found :
    (a b : String) (s t : Option Stored) (active backup : Found)
    → first_two a b s t ≡ active ∷ backup ∷ []
    → ((s ≡ some active.1) × (t ≡ some backup.1) × (active.0 ≡ a) × (backup.0 ≡ b))
      ⊎ ((s ≡ some backup.1) × (t ≡ some active.1) × (active.0 ≡ b) × (backup.0 ≡ a))
unfolding by_priority note_secret sort_descending insert_sorted set_priority_entry
first_two_found a b none none active backup h = cc
first_two_found a b (some s) none active backup h = ground (arith, h)
first_two_found a b none (some t) active backup h = ground (arith, h)
first_two_found a b (some s) (some t) active backup h =
    elim (ordered_two a b s t active backup (sym (two_found a b s t) ∙ h)) [
      | inl (e, f) ↦
          inl (
            ap (λ x. some x.1) (sym e),
            ap (λ x. some x.1) (sym f),
            ap (λ x. x.0) e,
            ap (λ x. x.0) f,
          )
      | inr (e, f) ↦
          inr (
            ap (λ x. some x.1) (sym f),
            ap (λ x. some x.1) (sym e),
            ap (λ x. x.0) e,
            ap (λ x. x.0) f,
          )
    ]

save-found :
    (name : String) (content : Fields) (cluster : Cluster) (old : Stored)
    → lookup name cluster ≡ some old
    → save name content cluster
      ≡ insert name (record old { content = merge_fields old.content content }) cluster
unfolding save
save-found name content cluster old found =
    ap
      (λ o. elim o [
        | none ↦ insert name (record { priority = 0; content = content }) cluster
        | some old ↦ insert name (record old { content = merge_fields old.content content }) cluster
      ])
      found

set_secret_priority-found :
    (name : String) (priority : ℕ) (cluster : Cluster) (old : Stored)
    → lookup name cluster ≡ some old
    → set_secret_priority name priority cluster
      ≡ insert name (record old { priority = priority }) cluster
unfolding set_secret_priority
set_secret_priority-found name priority cluster old found =
    ap
      (λ o. elim o [
        | none ↦ cluster
        | some secret ↦ insert name (record secret { priority = priority }) cluster
      ])
      found

abbrev pub promoted : ℕ → Fields → Stored → Stored
promoted id content old = record { priority = id; content = merge_fields old.content content }

pub lookup-save :
    (name : String) (content : Fields) (cluster : Cluster) (old : Stored) (id : ℕ) (other : String)
    → lookup name cluster ≡ some old
    → lookup other (set_secret_priority name id (save name content cluster))
      ≡ (if name == other then some (promoted id content old) else lookup other cluster)
lookup-save name content cluster old id other found =
    let new = record old { content = merge_fields old.content content } in
    let saved = save-found name content cluster old found in
    let again =
      ap (lookup name) saved
      ∙ lookup-insert name name new cluster
      ∙ ap (λ b. if b then some new else lookup name cluster) (eq_refl name) in
    ap (lookup other) (set_secret_priority-found name id (save name content cluster) new again)
    ∙ lookup-insert name other (promoted id content old) (save name content cluster)
    ∙ ap (λ o. if name == other then some (promoted id content old) else o)
        (ap (lookup other) saved ∙ lookup-insert name other new cluster)
    ∙ twice (name == other) (some (promoted id content old)) (some new) (lookup other cluster)
  where
    twice :
        (b : Bool) (x y z : Option Stored)
        → (if b then x else (if b then y else z)) ≡ (if b then x else z)
    twice true x y z = refl
    twice false x y z = refl

-- The two of a higher and a lower priority, in both orders of the names.
ordered-higher :
    (active new : Found)
    → active.1.priority < new.1.priority
    → (ordered active new ≡ new ∷ active ∷ []) × (ordered new active ≡ new ∷ active ∷ [])
ordered-higher active new h = (ground (arith, h), ground (arith, h))

-- The secrets after a promotion: the backup with its new data and the rotation id is first.
pub after_promotion :
    (cluster : Cluster) (active backup : Found) (id : ℕ) (content : Fields)
    → lookup active.0 cluster ≡ some active.1
    → lookup backup.0 cluster ≡ some backup.1
    → (backup.0 == active.0) ≡ false
    → active.1.priority < id
    → (names : List String)
    → (names ≡ active.0 ∷ backup.0 ∷ []) ⊎ (names ≡ backup.0 ∷ active.0 ∷ [])
    → get_secrets_sorted (set_secret_priority backup.0 id (save backup.0 content cluster)) names
      ≡ (backup.0, promoted id content backup.1) ∷ active ∷ []
after_promotion cluster active backup id content found also differ less names which =
    let after = set_secret_priority backup.0 id (save backup.0 content cluster) in
    let new : Found = (backup.0, promoted id content backup.1) in
    let stays =
      lookup-save backup.0 content cluster backup.1 id active.0 also
      ∙ ap (λ b. if b then some (promoted id content backup.1) else lookup active.0 cluster) differ
      ∙ found in
    let is_new =
      lookup-save backup.0 content cluster backup.1 id backup.0 also
      ∙ ap (λ b. if b then some (promoted id content backup.1) else lookup backup.0 cluster)
          (eq_refl backup.0) in
    let higher = ordered-higher active new less in
    elim which [
      | inl e ↦
          ap (get_secrets_sorted after) e
          ∙ get_secrets_sorted-pair after active.0 backup.0 active.1 new.1 stays is_new
          ∙ higher.0
      | inr e ↦
          ap (get_secrets_sorted after) e
          ∙ get_secrets_sorted-pair after backup.0 active.0 new.1 active.1 is_new stays
          ∙ higher.1
    ]

eq_sym : (a b : String) → (a == b) ≡ false → (b == a) ≡ false
eq_sym a b h = ground (arith, h, eq_iff a b, eq_iff b a)

-- What two sorted secrets say of the cluster.
abbrev pub AreFound : Cluster → Found → Found → List String → Type 0
AreFound cluster active backup names =
    (lookup active.0 cluster ≡ some active.1)
    × (lookup backup.0 cluster ≡ some backup.1)
    × ((backup.0 == active.0) ≡ false)
    × ((names ≡ active.0 ∷ backup.0 ∷ []) ⊎ (names ≡ backup.0 ∷ active.0 ∷ []))

pub sorted-AreFound :
    (cluster : Cluster) (a b : String) (active backup : Found)
    → (a == b) ≡ false
    → get_secrets_sorted cluster (a ∷ b ∷ []) ≡ active ∷ backup ∷ []
    → AreFound cluster active backup (a ∷ b ∷ [])
unfolding get_secrets_sorted collect
sorted-AreFound cluster a b active backup distinct sorted =
    elim (first_two_found a b (lookup a cluster) (lookup b cluster) active backup sorted) [
      | inl (found, also, is_a, is_b) ↦ (
        ap (λ n. lookup n cluster) is_a ∙ found,
        ap (λ n. lookup n cluster) is_b ∙ also,
        rw (is_a, is_b) (eq_sym a b distinct),
        inl (rw (is_a, is_b) refl),
      )
      | inr (found, also, is_b, is_a) ↦ (
        ap (λ n. lookup n cluster) is_b ∙ also,
        ap (λ n. lookup n cluster) is_a ∙ found,
        rw (is_a, is_b) distinct,
        inr (rw (is_a, is_b) refl),
      )
    ]
