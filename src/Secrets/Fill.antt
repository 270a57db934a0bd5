-- ===== src/Secrets/Fill.antt =====
-- `MultiSecret._fill` of openstack_controller/secrets.py, on the data of a secret: texts and dictionaries.
use openstack_controller.Common.{
  ◌==◌, if◌then◌else◌, keys, String, Bool, true, false, Option, none, some, List, [], ◌∷◌, ◌>>=◌,
  nat_eq, string_eq,
}

mutual
  pub data Value : Type 0 where
    text : String → Value
    dict : Fields → Value

  -- a dictionary's entries, in the order of insertion
  pub data Fields : Type 0 where
    end : Fields
    field : String → Value → Fields → Fields

-- What is to be updated: the fields of a list, or the entries of a dictionary of such rules.
mutual
  pub data Rule : Type 0 where
    names : List String → Rule
    entries : Rules → Rule

  pub data Rules : Type 0 where
    no_rules : Rules
    rule : String → Rule → Rules → Rules

abbrev pub get_field : String → Fields → Option Value
get_field key end = none
get_field key (field k v fields) = if k == key then some v else get_field key fields

abbrev pub set_field : String → Value → Fields → Fields
set_field key value end = field key value end
set_field key value (field k v fields) =
    if k == key then field k value fields else field k v (set_field key value fields)

-- `src[k]`: a KeyError where it is missing, a TypeError on a text
unfoldable pub item : String → Value → Option Value
item key (text s) = none
item key (dict fields) = get_field key fields

-- `dst[k] = v`: a TypeError on a text
unfoldable pub set_item : String → Value → Value → Option Value
set_item key value (text s) = none
set_item key value (dict fields) = some (dict (set_field key value fields))

-- `not v`
abbrev pub is_empty : Rule → Bool
is_empty (names []) = true
is_empty (entries no_rules) = true
is_empty _ = false

-- `for field in to_update: dst[field] = src[field]`
unfoldable pub copy_fields : Value → Value → List String → Option Value
copy_fields src dst [] = some dst
copy_fields src dst (key ∷ keys) = do
  value ← item key src
  set ← set_item key value dst
  copy_fields src set keys

-- The value that an entry's rule sets: the new one, or the old one filled from it.
abbrev pub entry_value :
    Bool → (Value → Value → Option Value) → String → Value → Value → Option Value
entry_value true filled key src dst = item key src
entry_value false filled key src dst = do from ← item key src; to ← item key dst; filled from to

unfoldable mutual
  pub fill : Value → Value → Rule → Option Value
  fill src dst (names []) = some src
  fill src dst (names (key ∷ keys)) = copy_fields src dst (key ∷ keys)
  fill src dst (entries rules) = fill_entries src dst rules

  -- `for k, v in to_update.items()`
  pub fill_entries : Value → Value → Rules → Option Value
  fill_entries src dst no_rules = some dst
  fill_entries src dst (rule key update rules) = do
    part ← entry_value (is_empty update) (λ from to. fill from to update) key src dst
    set ← set_item key part dst
    fill_entries src set rules
