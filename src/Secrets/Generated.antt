-- ===== src/Secrets/Generated.antt =====
-- What the generated names and passwords look like.
use text.Mathlib.TextLemmas.{nil-append, cons-append}
use mathlib.Core.List.{List}
use Prim.Native.String.{[], ◌∷◌, String}
use mathlib.Core.List as ListLib
use mathlib.Core.List.{List}
use openstack_controller.Common.{
  ◌==◌, eq_refl, length, count, contains, codes, concat, size, text_take, text_at, is_over, ℕ, zero,
  suc, ◌+◌, ◌-◌, ◌%◌, ◌≤◌, ◌<◌, Char, code, ◌≡◌, refl, ap, subst, Bool, true, false, ◌&&◌, ◌||◌,
  some, arith, nat_eq, string_eq,
}
use openstack_controller.Secrets.Names.{
  Credentials, chars, generate_credentials, generate_name, generate_password, join, pick,
}

-- The text has this length, and no characters but those of the alphabet.
abbrev pub IsPassword : ℕ → String → Type 0
IsPassword n s = (size s ≡ n) × (is_over chars s ≡ true)

text_at-total :
    (alphabet : String) (n : ℕ)
    → n < size alphabet
    → (c : Char) × (text_at n alphabet ≡ some c) × (contains (codes alphabet) (code c) ≡ true)
text_at-total [] n h = ground (arith, h)
text_at-total (a ∷ s) zero h = (a, refl, rw (eq_refl (code a)) refl)
text_at-total (a ∷ s) (suc n) h =
    let (c, found, inside) = text_at-total s n (omega (arith, h)) in
    (c, found, later a (code c) (codes s) inside)
  where
    later :
        (a : Char) (n : ℕ) (rest : List ℕ)
        → contains rest n ≡ true
        → (code a == n || contains rest n) ≡ true
    later a n rest h = ground (arith, h)

join-step :
    (byte : ℕ) (bytes : List ℕ) (c : Char) (s : String)
    → pick byte ≡ some c
    → join bytes ≡ some s
    → join (ListLib.List.◌∷◌ byte bytes) ≡ some (c ∷ s)
join-step byte bytes c s picked joined = rw (picked, joined) refl

join-IsPassword :
    (bytes : List ℕ) → (s : String) × (join bytes ≡ some s) × IsPassword (length bytes) s
join-IsPassword ListLib.List.[] = ([], refl, (refl, refl))
join-IsPassword (ListLib.List.◌∷◌ byte bytes) =
    let (c, found, inside) = text_at-total chars (byte % size chars) (omega arith) in
    let (s, joined, (sized, over)) = join-IsPassword bytes in
    (c ∷ s, join-step byte bytes c s found joined, (ap suc sized, rw (inside, over) refl))

size-take : (n : ℕ) (s : String) → n ≤ size s → size (text_take n s) ≡ n
size-take zero s h = refl
size-take (suc n) [] h = ground (arith, h)
size-take (suc n) (c ∷ s) h = ap suc (size-take n s (omega (arith, h)))

is_over-take :
    (alphabet : String) (n : ℕ) (s : String)
    → is_over alphabet s ≡ true
    → is_over alphabet (text_take n s) ≡ true
is_over-take alphabet zero s h = refl
is_over-take alphabet (suc n) [] h = refl
is_over-take alphabet (suc n) (c ∷ s) h =
    both (contains (codes alphabet) (code c)) (is_over alphabet s)
      (is_over alphabet (text_take n s)) h (is_over-take alphabet n s)
  where
    both : (b o t : Bool) → (b && o) ≡ true → (o ≡ true → t ≡ true) → (b && t) ≡ true
    both true o t h f = f h
    both false o t h f = cc

-- A text cut off is a part of its beginning, and then a part of the rest.
take-concat :
    (n : ℕ) (s t : String)
    → text_take n (concat s t) ≡ concat (text_take n s) (text_take (n - size s) t)
take-concat zero s t = rw (none_left (size s)) refl
  where
    none_left : (m : ℕ) → 0 - m ≡ 0
    none_left m = omega arith
take-concat (suc n) [] t = rw (nil-append t, nil-append (text_take (suc n - 0) t), suc-zero) refl
  where
    suc-zero : suc n - 0 ≡ suc n
    suc-zero = omega arith
take-concat (suc n) (c ∷ s) t =
    rw
      (
        cons-append c s t,
        cons-append c (text_take n s) (text_take (suc n - suc (size s)) t),
        less n (size s),
        take-concat n s t,
      )
      refl
  where
    less : (n m : ℕ) → suc n - suc m ≡ n - m
    less n m = omega arith

size-concat : (s t : String) → size (concat s t) ≡ size s + size t
size-concat [] t = omega (arith, ap size (nil-append t))
size-concat (c ∷ s) t = omega (arith, ap size (cons-append c s t), size-concat s t)

size-take_long : (n : ℕ) (s : String) → size (text_take n s) + (n - size s) ≡ n
size-take_long zero s = omega arith
size-take_long (suc n) [] = omega arith
size-take_long (suc n) (c ∷ s) = omega (arith, size-take_long n s)

-- A name of the asked length, which starts with as much of the prefix as fits in it.
abbrev pub IsName : String → ℕ → String → Type 0
IsName start n name =
    (size name ≡ n)
    × (rest : String) × (name ≡ concat (text_take n start) rest)
    × (is_over chars rest ≡ true)

named :
    (n : ℕ) (start password : String)
    → IsPassword n password
    → IsName start n (text_take n (concat start password))
named n start password (sized, over) =
    let cut = take-concat n start password in
    let rest = text_take (n - size start) password in
    let long = size-take (n - size start) password (omega (arith, sized)) in
    let total = size-concat (text_take n start) rest in
    (
      omega (arith, ap size cut, long, total, size-take_long n start),
      rest,
      cut,
      is_over-take chars (n - size start) password over,
    )

module _ (urandom : ℕ → ℕ → List ℕ) (sized : (call n : ℕ) → length (urandom call n) ≡ n) where
  -- A password is always made, has the asked length, and is of the listed characters: no index is out
  -- of their range. The source of randomness returns as many bytes as it is asked for.
  pub generate_password-bounds :
      (call count : ℕ)
      → (s : String) × (generate_password urandom call count ≡ some s) × IsPassword count s
  unfolding generate_password
  generate_password-bounds call count =
      let (s, made, password) = join-IsPassword (urandom call count) in
      (s, made, subst (λ n. IsPassword n s) (sized call count) password)

  generate_name-IsName :
      (call : ℕ) (start : String) (count : ℕ)
      → (s : String) × (generate_name urandom call start count ≡ some s) × IsName start count s
  unfolding generate_name
  generate_name-IsName call start count =
      let (s, made, password) = generate_password-bounds call count in
      (text_take count (concat start s), rw made refl, named count start s password)

  -- Credentials are always made: the username has its length and starts with as much of the prefix as
  -- fits, followed by listed characters, and the password has its length and is of listed characters.
  -- The source of randomness returns as many bytes as it is asked for.
  pub generate_credentials-bounds :
      (call : ℕ) (start : String) (username_length password_length : ℕ)
      → (c : Credentials) × (generate_credentials urandom call start username_length password_length
          ≡ some c)
        × IsName start username_length c.username
        × IsPassword password_length c.password
  unfolding generate_credentials
  generate_credentials-bounds call start username_length password_length =
      let (p, made, password) = generate_password-bounds call password_length in
      let (u, given, name) = generate_name-IsName (call + 1) start username_length in
      (record { username = u; password = p }, rw (made, given) refl, name, password)
