-- ===== src/Secrets/Names.antt =====
-- `generate_password`, `generate_name` and `generate_credentials` of openstack_controller/secrets.py.
--
-- `urandom` is given: the bytes that its n-th call returns for a length.
use Prim.Native.String.{[], ◌∷◌}
use mathlib.Core.List as ListLib
use mathlib.Core.List.{List}
use openstack_controller.Common.{
  count, concat, size, text_take, text_at, ℕ, ◌+◌, ◌%◌, Char, String, Option, some, ◌>>=◌,
}

abbrev pub chars : String
chars = "aAbBcCdDeEfFgGhHiIjJkKlLmMnNpPqQrRsStTuUvVwWxXyYzZ1234567890"

-- `chars[c % len(chars)]`
abbrev pub pick : ℕ → Option Char
pick byte = text_at (byte % size chars) chars

abbrev pub join : List ℕ → Option String
join ListLib.List.[] = some []
join (ListLib.List.◌∷◌ byte bytes) = do c ← pick byte; s ← join bytes; some (c ∷ s)

pub record Credentials : Type 0 where
  pub username : String
  pub password : String

module _ (urandom : ℕ → ℕ → List ℕ) where
  -- The call of urandom is the call-th.
  unfoldable pub generate_password : (call count : ℕ) → Option String
  generate_password call count = join (urandom call count)

  unfoldable pub generate_name : (call : ℕ) (start : String) (count : ℕ) → Option String
  generate_name call start count = do
    password ← generate_password call count
    some (text_take count (concat start password))

  unfoldable pub generate_credentials :
      (call : ℕ) (start : String) (username_length password_length : ℕ) → Option Credentials
  generate_credentials call start username_length password_length = do
    password ← generate_password call password_length
    username ← generate_name (call + 1) start username_length
    some (record { username = username; password = password })
