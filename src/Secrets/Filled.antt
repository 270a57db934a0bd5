-- ===== src/Secrets/Filled.antt =====
-- Where the values of a filled secret come from.
use openstack_controller.Common.{
  ◌==◌, eq_iff, eq_refl, if◌then◌else◌, contains, keys, ◌>>=◌, some_of_bind, some_inj, String, ◌≡◌,
  refl, sym, ap, ◌∙◌, subst, Bool, true, false, ◌||◌, Option, some, List, [], ◌∷◌, arith, nat_eq,
  string_eq,
}
use openstack_controller.Secrets.Fill.{
  Fields, Rule, Rules, Value, copy_fields, dict, end, entries, field, get_field, is_empty, item,
  names, no_rules, rule, set_field, set_item, text, fill, fill_entries, entry_value,
}

-- The value at a path of keys.
abbrev pub at_path : List String → Value → Option Value
at_path [] value = some value
at_path (key ∷ path) value = item key value >>= at_path path

pub data Origin : Type 0 where
  -- the new value
  from_src : Origin
  -- the value that was there
  from_dst : Origin
  -- a dictionary that has some of both
  mixed : Origin

-- What the rules say of the value at a path.
abbrev mutual
  pub origin : Rule → List String → Origin
  origin (names []) path = from_src
  origin (names (k ∷ ks)) [] = mixed
  origin (names (k ∷ ks)) (key ∷ path) = if contains (k ∷ ks) key then from_src else from_dst
  origin (entries rules) [] = mixed
  origin (entries rules) (key ∷ path) = origin_in rules key path

  pub origin_in : Rules → String → List String → Origin
  origin_in no_rules key path = from_dst
  origin_in (rule k update rules) key path =
      let inner = origin update path in
      let later = origin_in rules key path in
      if k == key then (if is_empty update then from_src else inner) else later

abbrev pub has_rule : String → Rules → Bool
has_rule key no_rules = false
has_rule key (rule k update rules) = k == key || has_rule key rules

-- The dictionaries of the rules have each key once.
abbrev mutual
  pub IsProper : Rule → Type 0
  IsProper (names ks) = Unit
  IsProper (entries rules) = AreProper rules

  pub AreProper : Rules → Type 0
  AreProper no_rules = Unit
  AreProper (rule key update rules) =
      (has_rule key rules ≡ false) × IsProper update × AreProper rules

abbrev pub ComesFrom : Origin → (src dst out : Option Value) → Type 0
ComesFrom from_src src dst out = out ≡ src
ComesFrom from_dst src dst out = out ≡ dst
ComesFrom mixed src dst out = Unit

get_field-set :
    (key other : String) (value : Value) (fields : Fields)
    → get_field other (set_field key value fields)
      ≡ (if key == other then some value else get_field other fields)
get_field-set key other value end = refl
get_field-set key other value (field k v fields) =
    ground
      (arith, get_field-set key other value fields, eq_iff k key, eq_iff k other, eq_iff key other)

item-set :
    (key other : String) (value dst out : Value)
    → set_item key value dst ≡ some out
    → item other out ≡ (if key == other then some value else item other dst)
unfolding item set_item
item-set key other value (text s) out h = cc
item-set key other value (dict fields) out h =
    subst (λ o. item other o ≡ (if key == other then some value else get_field other fields))
      (some_inj h) (get_field-set key other value fields)

-- The path of a set key, and of another one.
at_path-set :
    (key : String) (path : List String) (value dst out : Value)
    → set_item key value dst ≡ some out
    → at_path (key ∷ path) out ≡ at_path path value
at_path-set key path value dst out h = rw (item-set key key value dst out h, eq_refl key) refl

at_path-other :
    (key other : String) (path : List String) (value dst out : Value)
    → set_item key value dst ≡ some out
    → (key == other) ≡ false
    → at_path (other ∷ path) out ≡ at_path (other ∷ path) dst
at_path-other key other path value dst out h differ =
    rw (item-set key other value dst out h, differ) refl

at_path-item :
    (key : String) (path : List String) (value part : Value)
    → item key value ≡ some part
    → at_path (key ∷ path) value ≡ at_path path part
at_path-item key path value part h = rw h refl

over_next :
    (b c : Bool) (src dst next out : Option Value)
    → (b ≡ true → next ≡ src)
    → (b ≡ false → next ≡ dst)
    → ComesFrom (if c then from_src else from_dst) src next out
    → ComesFrom (if b || c then from_src else from_dst) src dst out
over_next true true src dst next out here other h = h
over_next true false src dst next out here other h = h ∙ here refl
over_next false true src dst next out here other h = h
over_next false false src dst next out here other h = h ∙ other refl

copy_fields-origin :
    (src dst out : Value) (keys : List String) (key : String) (path : List String)
    → copy_fields src dst keys ≡ some out
    → ComesFrom
        (if contains keys key then from_src else from_dst)
        (at_path (key ∷ path) src)
        (at_path (key ∷ path) dst)
        (at_path (key ∷ path) out)
unfolding copy_fields
copy_fields-origin src dst out [] key path h = ap (at_path (key ∷ path)) (sym (some_inj h))
copy_fields-origin src dst out (k ∷ keys) key path h =
    let (value, found, h1) = some_of_bind (item k src) _ out h in
    let (next, is_set, h2) = some_of_bind (set_item k value dst) _ out h1 in
    over_next (k == key) (contains keys key) (at_path (key ∷ path) src) _
      (at_path (key ∷ path) next) _
      (λ e.
        at_path-set key path value dst next
          (subst (λ n. set_item n value dst ≡ some next) ((eq_iff k key).0 e) is_set)
        ∙ sym (
            at_path-item key path src value
              (subst (λ n. item n src ≡ some value) ((eq_iff k key).0 e) found)))
      (λ e. at_path-other k key path value dst next is_set e)
      (copy_fields-origin src next out keys key path h2)

pub unruled :
    (rules : Rules) (key : String) (path : List String)
    → has_rule key rules ≡ false
    → origin_in rules key path ≡ from_dst
unruled no_rules key path h = refl
unruled (rule k update rules) key path h =
    unruled_other (k == key) h (λ e. unruled rules key path e)
  where
    unruled_other :
        (b : Bool)
        → (b || has_rule key rules) ≡ false
        → (has_rule key rules ≡ false → origin_in rules key path ≡ from_dst)
        → (if b
            then (if is_empty update then from_src else origin update path)
            else origin_in rules key path)
          ≡ from_dst
    unruled_other true e later = cc
    unruled_other false e later = later e

-- The value that a rule sets.
part-origin :
    (b : Bool) (o : Origin) (filled : Value → Value → Option Value) (key : String)
    (path : List String) (src dst part : Value)
    → ((from to : Value)
        → filled from to ≡ some part
        → ComesFrom o (at_path path from) (at_path path to) (at_path path part))
    → entry_value b filled key src dst ≡ some part
    → ComesFrom
        (if b then from_src else o)
        (at_path (key ∷ path) src)
        (at_path (key ∷ path) dst)
        (at_path path part)
part-origin true o filled key path src dst part rest h = sym (at_path-item key path src part h)
part-origin false o filled key path src dst part rest h =
    let (from, is_from, h1) = some_of_bind (item key src) _ part h in
    let (to, is_to, h2) = some_of_bind (item key dst) _ part h1 in
    subst (λ d. ComesFrom o (at_path (key ∷ path) src) d (at_path path part))
      (sym (at_path-item key path dst to is_to))
      (subst (λ s. ComesFrom o s (at_path path to) (at_path path part))
        (sym (at_path-item key path src from is_from)) (rest from to h2))

over_rule :
    (b : Bool) (o later : Origin) (src dst next part out : Option Value)
    → (b ≡ true → (ComesFrom o src dst part) × (next ≡ part) × (later ≡ from_dst))
    → (b ≡ false → next ≡ dst)
    → ComesFrom later src next out
    → ComesFrom (if b then o else later) src dst out
over_rule true o later src dst next part out here other h =
    let (set, same, last) = here refl in
    subst (λ v. ComesFrom o src dst v) (sym (subst (λ l. ComesFrom l src next out) last h ∙ same))
      set
over_rule false o later src dst next part out here other h =
    subst (λ v. ComesFrom later src v out) (other refl) h

mutual
  unfolding fill fill_entries

  at_path-fill :
      (rule_set : Rule) (src dst out : Value) (path : List String)
      → IsProper rule_set
      → fill src dst rule_set ≡ some out
      → ComesFrom (origin rule_set path) (at_path path src) (at_path path dst) (at_path path out)
  at_path-fill (names []) src dst out path proper h = ap (at_path path) (sym (some_inj h))
  at_path-fill (names (k ∷ ks)) src dst out [] proper h = tt
  at_path-fill (names (k ∷ ks)) src dst out (key ∷ path) proper h =
      copy_fields-origin src dst out (k ∷ ks) key path h
  at_path-fill (entries rules) src dst out [] proper h = tt
  at_path-fill (entries rules) src dst out (key ∷ path) proper h =
      at_path-fill_entries rules src dst out key path proper h

  at_path-fill_entries :
      (rules : Rules) (src dst out : Value) (key : String) (path : List String)
      → AreProper rules
      → fill_entries src dst rules ≡ some out
      → ComesFrom
          (origin_in rules key path)
          (at_path (key ∷ path) src)
          (at_path (key ∷ path) dst)
          (at_path (key ∷ path) out)
  at_path-fill_entries no_rules src dst out key path proper h =
      ap (at_path (key ∷ path)) (sym (some_inj h))
  at_path-fill_entries (rule k update rules) src dst out key path (once, inner, proper) h =
      let (part, is_part, h1) =
        some_of_bind (entry_value (is_empty update) (λ from to. fill from to update) k src dst) _
          out h in
      let (next, is_set, h2) = some_of_bind (set_item k part dst) _ out h1 in
      over_rule (k == key) (if is_empty update then from_src else origin update path)
        (origin_in rules key path) (at_path (key ∷ path) src) (at_path (key ∷ path) dst)
        (at_path (key ∷ path) next) (at_path path part) (at_path (key ∷ path) out)
        (λ e.
          let same = (eq_iff k key).0 e in
          (
            subst
                (λ n.
                  ComesFrom (if is_empty update then from_src else origin update path)
                    (at_path (n ∷ path) src) (at_path (n ∷ path) dst) (at_path path part))
                same
                (part-origin (is_empty update) (origin update path) (λ from to. fill from to update)
                  k path src dst part
                  (λ from to filled. at_path-fill update from to part path inner filled) is_part),
            subst (λ n. at_path (n ∷ path) next ≡ at_path path part) same
                (at_path-set k path part dst next is_set),
            unruled rules key path (subst (λ n. has_rule n rules ≡ false) same once),
          ))
        (λ e. at_path-other k key path part dst next is_set e)
        (at_path-fill_entries rules src next out key path proper h2)

-- When a secret's data is filled, each path of keys has the value that the rules say: the new secret's
-- where they name the path or a part of it, and the old one's where they do not lead to it. The
-- dictionaries of the rules have each key once.
pub fill-origin :
    (src dst : Value) (rule_set : Rule) (out : Value) (path : List String)
    → IsProper rule_set
    → fill src dst rule_set ≡ some out
    → ComesFrom (origin rule_set path) (at_path path src) (at_path path dst) (at_path path out)
fill-origin src dst rule_set out path proper h = at_path-fill rule_set src dst out path proper h
