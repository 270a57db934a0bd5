-- ===== src/Admission/Cron.antt =====
-- `CronValidator` of openstack_controller/utils.py, on the code points of a schedule. The tests for
-- digits, white space and capitals are those of ASCII.
use mathlib.Core.List.{reverse}
use openstack_controller.Common.{
  ltb, leb, ◌==◌, if◌then◌else◌, length, all, any, contains, codes, ℕ, ◌+◌, ◌-◌, ◌*◌, String, Bool,
  true, false, ◌&&◌, ◌||◌, List, [], ◌∷◌, map, nat_eq, string_eq,
}

abbrev pub Text : Type 0
Text = List ℕ

abbrev pub text_eq : Text → Text → Bool
text_eq [] [] = true
text_eq (a ∷ s) (b ∷ t) = a == b && text_eq s t
text_eq _ _ = false

-- `s.split(c)`
unfoldable pub split_on : ℕ → Text → List Text
split_on c [] = [] ∷ []
split_on c (a ∷ s) =
    let parts = split_on c s in
    if a == c
    then [] ∷ parts
    else elim parts [ [] ↦ (a ∷ []) ∷ [] | part ∷ rest ↦ (a ∷ part) ∷ rest ]

abbrev is_digit_code : ℕ → Bool
is_digit_code a = leb b'0' a && leb a b'9'

-- `s.isdigit()`
unfoldable pub isdigit : Text → Bool
isdigit [] = false
isdigit (a ∷ s) = all is_digit_code (a ∷ s)

abbrev digits_value : ℕ → Text → ℕ
digits_value acc [] = acc
digits_value acc (a ∷ s) = digits_value (10 * acc + (a - b'0')) s

-- `int(s)`
unfoldable pub int : Text → ℕ
int s = digits_value 0 s

-- A subclass of `CronValidatorBase`. Those of the base class's checks have no names.
pub record Field : Type 0 where
  pub min : ℕ
  pub max : ℕ
  pub names : List String

abbrev pub minutes : Field
minutes = record { min = 0; max = 59; names = [] }

abbrev pub hours : Field
hours = record { min = 0; max = 23; names = [] }

abbrev pub days : Field
days = record { min = 1; max = 31; names = [] }

abbrev pub months : Field
months = record {
  min = 1;
  max = 12;
  names =
      "jan" ∷ "feb" ∷ "mar" ∷ "apr" ∷ "may" ∷ "jun" ∷ "jul" ∷ "aug" ∷ "sep" ∷ "oct" ∷ "nov" ∷ "dec"
      ∷ [];
}

abbrev pub days_of_week : Field
days_of_week = record {
  min = 0;
  max = 7;
  names = "sun" ∷ "mon" ∷ "tue" ∷ "wed" ∷ "thu" ∷ "fri" ∷ "sat" ∷ [];
}

abbrev is_star : Text → Bool
is_star = text_eq (codes "*")

module _ (f : Field) where
  unfoldable pub is_name : Text → Bool
  is_name element = any (λ n. text_eq (codes n) element) f.names

  -- `_check_item`
  unfoldable pub check_item : Text → Bool
  check_item element =
      if is_name element
      then true
      else (if isdigit element
          then leb f.min (int element) && leb (int element) f.max
          else is_star element)

  -- `_check_range`
  unfoldable pub check_range : Text → Bool
  check_range element = elim (split_on b'-' element) [
    | [] ↦ false
    | low ∷ rest ↦ elim rest [
      | [] ↦ false
      | high ∷ more ↦ elim more [
        | [] ↦
            isdigit low
            && isdigit high
            && check_item low
            && check_item high
            && leb (int low) (int high)
        | _ ↦ false
      ]
    ]
  ]

  -- The left part of a step.
  abbrev check_stepped : Text → Bool
  check_stepped part = if contains part b'-' then check_range part else is_star part

  -- `_check_step`
  unfoldable pub check_step : Text → Bool
  check_step element = elim (split_on b'/' element) [
    | [] ↦ false
    | part ∷ rest ↦ elim rest [
      | [] ↦ false
      | step ∷ more ↦ elim more [
        | [] ↦ isdigit step && check_item step && check_stepped part
        | _ ↦ false
      ]
    ]
  ]

  abbrev check_part : Text → Bool
  check_part item =
      if contains item b'/'
      then check_step item
      else (if contains item b'-' then check_range item else check_item item)

  -- `_check_list`: names stand alone.
  unfoldable pub check_list : Text → Bool
  check_list element =
      let parts = split_on b',' element in
      if ltb 1 (length parts) && any is_name parts then false else all check_part parts

abbrev is_space : ℕ → Bool
is_space a = a == 32 || (leb 9 a && leb a 13)

abbrev strip_left : Text → Text
strip_left [] = []
strip_left (a ∷ s) = let rest = strip_left s in if is_space a then rest else a ∷ s

abbrev lower_code : ℕ → ℕ
lower_code a = if leb b'A' a && leb a b'Z' then a + 32 else a

-- `schedule.strip().lower()`
unfoldable pub normalized : Text → Text
normalized s = map lower_code (reverse (strip_left (reverse (strip_left s))))

abbrev nicknames : List String
nicknames = "@yearly" ∷ "@annually" ∷ "@monthly" ∷ "@weekly" ∷ "@daily" ∷ "@hourly" ∷ []

-- The five blocks, one for each field.
abbrev check_blocks : List Field → List Text → Bool
check_blocks [] [] = true
check_blocks (f ∷ fields) (b ∷ blocks) = check_list f b && check_blocks fields blocks
check_blocks _ _ = false

-- `CronValidator(schedule).validate()`
unfoldable pub is_schedule : Text → Bool
is_schedule schedule =
    let s = normalized schedule in
    if any (λ n. text_eq (codes n) s) nicknames
    then true
    else check_blocks (minutes ∷ hours ∷ days ∷ months ∷ days_of_week ∷ []) (split_on 32 s)
