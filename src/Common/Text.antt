-- ===== src/Common/Text.antt =====
-- Texts cut at one character, as `str.split(c)` is used on names.
use Prim.Native.Nat.{ℕ, zero, suc, ◌+◌}
use Prim.Native.Char.{Char, code}
use Prim.Native.String.{String, [], ◌∷◌, ◌++◌}
use mathlib.Core.Bool.{Bool, true, false, ◌&&◌}
use mathlib.Core.Path.{◌≡◌, refl}
use native.Mathlib.Omega.{arith}
use mathlib.Core.Option.{Option, none, some}
use mathlib.Core.List as ListLib
use mathlib.Core.List.{List}
use openstack_controller.Common.Tests.{◌==◌, nat_eq, if◌then◌else◌}
use openstack_controller.Common.Lists.{contains, length, count}

-- The code points of a text.
abbrev pub codes : String → List ℕ
codes [] = ListLib.List.[]
codes (c ∷ s) = ListLib.List.◌∷◌ (code c) (codes s)

-- `s.split(c)[0]`: the text up to the first `c`.
unfoldable pub before_char : ℕ → String → String
before_char sep [] = []
before_char sep (c ∷ s) = if code c == sep then [] else c ∷ before_char sep s

-- `c.join(s.split(c)[1:])`: the text behind the first `c`, empty where there is none.
unfoldable pub after_char : ℕ → String → String
after_char sep [] = []
after_char sep (c ∷ s) = if code c == sep then s else after_char sep s

-- `f"{s}{t}"`
abbrev pub concat : String → String → String
concat s t = s ++ t

-- `len(s)`
abbrev pub size : String → ℕ
size [] = 0
size (c ∷ s) = suc (size s)

-- `s[:n]`
abbrev pub text_take : ℕ → String → String
text_take zero s = []
text_take (suc n) [] = []
text_take (suc n) (c ∷ s) = c ∷ text_take n s

-- `s[n]`, where none is an IndexError
abbrev pub text_at : ℕ → String → Option Char
text_at n [] = none
text_at zero (c ∷ s) = some c
text_at (suc n) (c ∷ s) = text_at n s

-- Each character of the text is one of the code points.
abbrev pub is_over : String → String → Bool
is_over alphabet [] = true
is_over alphabet (c ∷ s) = contains (codes alphabet) (code c) && is_over alphabet s

-- Puts a character before the first of some texts.
abbrev pub onto_first : Char → List String → List String
onto_first c ListLib.List.[] = ListLib.List.[]
onto_first c (ListLib.List.◌∷◌ s rest) = ListLib.List.◌∷◌ (c ∷ s) rest

-- `s.split(c)`
unfoldable pub split_char : ℕ → String → List String
split_char sep [] = ListLib.List.◌∷◌ [] ListLib.List.[]
split_char sep (c ∷ s) =
    let rest = split_char sep s in
    if code c == sep then ListLib.List.◌∷◌ [] rest else onto_first c rest

-- How often a character is in a text.
abbrev pub occurrences : ℕ → String → ℕ
occurrences sep s = count (λ d. d == sep) (codes s)

-- A text has one part more than separators.
pub length-split_char : (sep : ℕ) (s : String) → length (split_char sep s) ≡ suc (occurrences sep s)
unfolding split_char
length-split_char sep [] = refl
length-split_char sep (c ∷ s) = split (code c == sep) (split_char sep s) (length-split_char sep s)
  where
    split :
        (b : Bool) (rest : List String)
        → length rest ≡ suc (occurrences sep s)
        → length (if b then ListLib.List.◌∷◌ [] rest else onto_first c rest)
          ≡ suc ((if b then 1 else 0) + occurrences sep s)
    split true rest h = omega (arith, h)
    split false ListLib.List.[] h = omega (arith, h)
    split false (ListLib.List.◌∷◌ p rest) h = omega (arith, h)
