-- ===== src/Services/World.antt =====
-- What the services change: objects of the cluster, helm releases, the statuses of services; and methods
-- on it, which may raise. What was done before a raise stays done.
use openstack_controller.Common.{Dict, ℕ, String, List, [], ◌∷◌}

pub data State : Type 0 where
  state_applying state_applied state_deleting state_waiting : State

-- An entry of `status.services`.
pub record ServiceStatus : Type 0 where
  pub state : State
  pub fingerprint : String
  pub controller_version : String

pub record World : Type 0 where
  -- the kind and the name of each object
  pub objects : List (String × String)
  -- the releases that helm has, with their values
  pub releases : Dict String
  pub services : Dict ServiceStatus
  -- how many calls of helm were made
  pub calls : ℕ

pub data Error : Type 0 where
  -- kopf.TemporaryError
  temporary : Error
  -- HelmImmutableFieldChange, HelmRollback and the timeout of asyncio
  immutable_field_change helm_rollback timed_out : Error
  other : Error
  -- the fuel of a retry is used up
  still_retrying : Error

pub data Result {ℓ} (A : Type ℓ) : Type ℓ where
  ok : A → Result A
  raised : Error → Result A

abbrev pub Method {ℓ} : Type ℓ → Type ℓ
Method A = World → Result A × World

abbrev pub pure {ℓ} : {A : Type ℓ} → A → Method A
pure a world = (ok a, world)

abbrev pub raise {ℓ} : {A : Type ℓ} → Error → Method A
raise e world = (raised e, world)

abbrev pub continue {ℓ κ} :
    {A : Type ℓ} {B : Type κ} → (A → Method B) → Result A → World → Result B × World
continue f (ok a) world = f a world
continue f (raised e) world = (raised e, world)

abbrev pub or_first : Result (Unit {0}) → Result (Unit {0}) → Result (Unit {0})
or_first (ok a) later = later
or_first (raised e) later = raised e

infixl 5 ◌>>=◌ ◌>>◌
unfoldable pub ◌>>=◌ {ℓ κ} : {A : Type ℓ} {B : Type κ} → Method A → (A → Method B) → Method B
◌>>=◌ m f world = continue f (m world).0 (m world).1

abbrev pub ◌>>◌ {ℓ κ} : {A : Type ℓ} {B : Type κ} → Method A → Method B → Method B
m >> k = m >>= λ _. k

-- `asyncio.gather`: all are run, and the first error is raised.
unfoldable pub gather {ℓ} : {A : Type ℓ} → (A → Method (Unit {0})) → List A → Method (Unit {0})
gather act [] world = (ok tt, world)
gather act (a ∷ rest) world =
    let (later, after) = gather act rest (act a world).1 in (or_first (act a world).0 later, after)

-- `for a in l`
unfoldable pub each {ℓ} : {A : Type ℓ} → (A → Method (Unit {0})) → List A → Method (Unit {0})
each act [] = pure tt
each act (a ∷ rest) = act a >> each act rest

abbrev pub modify : (World → World) → Method (Unit {0})
modify f world = (ok tt, f world)
