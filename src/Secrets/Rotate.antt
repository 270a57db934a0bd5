-- ===== src/Secrets/Rotate.antt =====
-- `get_secrets_sorted` and `MultiSecret.rotate` of openstack_controller/secrets.py, with the secrets of one
-- namespace in the cluster.
use openstack_controller.Common.{
  ltb, leb, ◌==◌, if◌then◌else◌, Dict, lookup, insert, ℕ, String, true, false, not, Option, none,
  some, List, [], ◌∷◌, ◌++◌, map, ◌>>=◌, nat_eq, string_eq,
}
use openstack_controller.Secrets.Fill.{
  Fields, Value, Rule, dict, field, end, is_empty, set_field, fill,
}

-- A secret: the annotation SECRET_PRIORITY, 0 where there is none, and the decoded data.
pub record Stored : Type 0 where
  pub priority : ℕ
  pub content : Fields

abbrev pub Cluster : Type 0
Cluster = Dict Stored

-- A secret that was found, with its name.
abbrev pub Found : Type 0
Found = String × Stored

-- `res_map[priority] = secret`
unfoldable pub set_priority_entry : ℕ → Found → List (ℕ × Found) → List (ℕ × Found)
set_priority_entry priority secret [] = (priority, secret) ∷ []
set_priority_entry priority secret ((p, s) ∷ entries) =
    if p == priority
    then (p, secret) ∷ entries
    else (p, s) ∷ set_priority_entry priority secret entries

unfoldable pub insert_sorted : ℕ × Found → List (ℕ × Found) → List (ℕ × Found)
insert_sorted entry [] = entry ∷ []
insert_sorted (p, s) ((q, t) ∷ entries) =
    if leb q p then (p, s) ∷ (q, t) ∷ entries else (q, t) ∷ insert_sorted (p, s) entries

-- `sorted(res_map.keys(), reverse=True)`, with the entries of the keys
unfoldable pub sort_descending : List (ℕ × Found) → List (ℕ × Found)
sort_descending [] = []
sort_descending (entry ∷ entries) = insert_sorted entry (sort_descending entries)

-- `res_map` and `no_priority`
abbrev pub Sorting : Type 0
Sorting = List (ℕ × Found) × List Found

-- The body of the first loop.
unfoldable pub note_secret : String → Option Stored → Sorting → Sorting
note_secret name none (res_map, no_priority) = (res_map, no_priority)
note_secret name (some secret) (res_map, no_priority) =
    if not (secret.priority == 0)
    then (set_priority_entry secret.priority (name, secret) res_map, no_priority)
    else (res_map, no_priority ++ (name, secret) ∷ [])

unfoldable pub collect : Cluster → List String → Sorting → Sorting
collect cluster [] sorting = sorting
collect cluster (name ∷ names) sorting =
    collect cluster names (note_secret name (lookup name cluster) sorting)

unfoldable pub by_priority : Sorting → List Found
by_priority (res_map, no_priority) = map (λ entry. entry.1) (sort_descending res_map) ++ no_priority

unfoldable pub get_secrets_sorted : Cluster → List String → List Found
get_secrets_sorted cluster names = by_priority (collect cluster names ([], []))

-- A class of secrets: its two names, `rotation_fields`, `create` at the time of the call, and the round
-- trip of data through `from_json` and `to_json`, which raises where the format is wrong.
pub record SecretClass : Type 0 where
  pub base_name : String
  pub other_name : String
  pub rotated_fields : Rule
  pub immutable_fields : Rule
  pub created : Fields
  pub load : Value → Option Fields

pub data Outcome : Type 0 where
  rotated already_rotated greater_rotation_id raised : Outcome

-- The update of a secret is a patch: each given field is set.
unfoldable pub merge_fields : Fields → Fields → Fields
merge_fields old end = old
merge_fields old (field key value new) = merge_fields (set_field key value old) new

-- `save_secret_data`
unfoldable pub save : String → Fields → Cluster → Cluster
save name content cluster = elim (lookup name cluster) [
  | none ↦ insert name (record { priority = 0; content = content }) cluster
  | some old ↦ insert name (record old { content = merge_fields old.content content }) cluster
]

-- `set_secret_priority`
unfoldable pub set_secret_priority : String → ℕ → Cluster → Cluster
set_secret_priority name priority cluster = elim (lookup name cluster) [
  | none ↦ cluster
  | some secret ↦ insert name (record secret { priority = priority }) cluster
]

module _ (class : SecretClass) where
  abbrev pub secret_names : List String
  secret_names = class.base_name ∷ class.other_name ∷ []

  unfoldable pub k8s_secrets : Cluster → List Found
  k8s_secrets cluster = get_secrets_sorted cluster secret_names

  -- The backup's data with the active one's immutable fields, and then with new values.
  unfoldable pub next_data : (active backup : Fields) → Option Fields
  next_data active backup = do
    kept ← elim (is_empty class.immutable_fields) [
      | true ↦ some (dict backup)
      | false ↦ fill (dict active) (dict backup) class.immutable_fields
    ]
    filled ← fill (dict class.created) kept class.rotated_fields
    class.load filled

  -- The part of `rotate` behind its guards.
  unfoldable pub promote : (active backup : Found) → ℕ → Cluster → Outcome × Cluster
  promote active backup rotation_id cluster = elim (next_data active.1.content backup.1.content) [
    | none ↦ (raised, cluster)
    | some content ↦
        (rotated, set_secret_priority backup.0 rotation_id (save backup.0 content cluster))
  ]

  -- The secrets are unpacked into two: any other number raises.
  unfoldable pub rotate_sorted : List Found → ℕ → Cluster → Outcome × Cluster
  rotate_sorted [] rotation_id cluster = (raised, cluster)
  rotate_sorted (active ∷ []) rotation_id cluster = (raised, cluster)
  rotate_sorted (active ∷ backup ∷ []) rotation_id cluster =
      if active.1.priority == rotation_id
      then (already_rotated, cluster)
      else (if ltb rotation_id active.1.priority
          then (greater_rotation_id, cluster)
          else promote active backup rotation_id cluster)
  rotate_sorted (a ∷ b ∷ c ∷ more) rotation_id cluster = (raised, cluster)

  unfoldable pub rotate : ℕ → Cluster → Outcome × Cluster
  rotate rotation_id cluster = rotate_sorted (k8s_secrets cluster) rotation_id cluster
