-- ===== src/Services/Helm.antt =====
-- `HelmManager` of openstack_controller/helm.py. The helm program is given: what it replies to a command
-- and what it does to the releases and to the objects of the cluster, which may differ from call to call. The lock that admits one command
-- at a time makes a command one step.
use openstack_controller.Common.{
  ◌==◌, if◌then◌else◌, select, any, contains, Dict, lookup, keys, ℕ, zero, suc, String, Bool, true,
  false, not, ◌&&◌, Option, none, some, List, nat_eq, string_eq,
}
use openstack_controller.Services.World.{
  Method, pure, raise, each, ◌>>=◌, ◌>>◌, World, Result, ok, raised, Error, temporary,
  immutable_field_change, helm_rollback, timed_out, still_retrying,
}

pub data Command : Type 0 where
  list_releases : Command
  get_values : String → Command
  -- upgrade --install
  install_release : (name values : String) → Command
  delete_release : String → Command
  rollback_release : String → Command

-- What `_run_cmd` reads of a finished command.
pub record Reply : Type 0 where
  pub timeout : Bool
  -- `process.returncode`
  pub failed : Bool
  -- stderr ends with "field is immutable" or "are forbidden"
  pub is_immutable : Bool
  -- the objects that the pattern of `_guess_and_delete` finds in stderr: kind and name
  pub matches : List (String × String)
  -- stderr has "another operation (install/upgrade/rollback) is in progress"
  pub in_progress : Bool
  -- stderr is not empty, and stderr has "Release not loaded"
  pub has_stderr : Bool
  pub not_loaded : Bool

pub record Program : Type 0 where
  pub run : (call : ℕ) → Command → Dict String → Reply × Dict String
  -- what is left or made of the objects by the same call
  pub run_objects :
      (call : ℕ) → Command → Dict String → List (String × String) → List (String × String)
  -- `constants.KINDS_FOR_MANUAL_UPDATE`
  pub manual_kinds : List String
  -- whether a deleted object goes while it is waited for
  pub is_gone : (String × String) → Bool
  -- how many attempts `helm_retry` is followed
  pub attempts : ℕ

abbrev pub same_object : (String × String) → (String × String) → Bool
same_object a b = a.0 == b.0 && a.1 == b.1

unfoldable pub delete_object : (String × String) → World → World
delete_object object world = record world {
  objects = select (λ o. not (same_object o object)) world.objects;
}

module _ (helm : Program) where
  -- The process is run and its output is read.
  unfoldable pub communicate : Command → Method Reply
  communicate command world =
      let (reply, releases) = helm.run world.calls command world.releases in
      (
        (if reply.timeout then raised timed_out else ok reply),
        record world {
          objects = helm.run_objects world.calls command world.releases world.objects;
          releases = releases;
          calls = suc world.calls;
        },
      )

  -- The body of the loop of `_guess_and_delete`. What `wait_for_deleted` answers is not looked at.
  unfoldable pub delete_match : (String × String) → Method (Unit {0})
  delete_match object world =
      if contains helm.manual_kinds object.0
      then (raised temporary, world)
      else (if any (λ o. same_object o object) world.objects
          then (ok tt, (if helm.is_gone object then delete_object object world else world))
          else (ok tt, world))

  unfoldable pub guess_and_delete : List (String × String) → Method (Unit {0})
  guess_and_delete matches = each delete_match matches

  -- `_run_cmd` behind a command that failed, where the caller has named a release or not.
  unfoldable pub raise_failure : Option String → Reply → Method Reply
  raise_failure release reply =
      if reply.is_immutable
      then (do guess_and_delete reply.matches; raise immutable_field_change)
      else (elim release [
        | none ↦ raise temporary
        | some name ↦
            if reply.in_progress
            then (do communicate (rollback_release name); raise helm_rollback)
            else raise temporary
      ])

  unfoldable pub classify : (raise_on_error : Bool) → Option String → Reply → Method Reply
  classify raise_on_error release reply =
      if reply.failed && raise_on_error then raise_failure release reply else pure reply

  -- `_run_cmd`, one attempt
  unfoldable pub attempt : Command → (raise_on_error : Bool) → Option String → Method Reply
  attempt command raise_on_error release = do
    reply ← communicate command
    classify raise_on_error release reply

  abbrev pub is_retriable : Error → Bool
  is_retriable immutable_field_change = true
  is_retriable helm_rollback = true
  is_retriable timed_out = true
  is_retriable _ = false

  -- `helm_retry`: whether there is another attempt
  abbrev pub is_retried : Result Reply → Bool
  is_retried (ok reply) = false
  is_retried (raised e) = is_retriable e

  abbrev pub retry_if : Bool → Method Reply → Result Reply × World → Result Reply × World
  retry_if true again (result, world) = again world
  retry_if false again (result, world) = (result, world)

  unfoldable pub retry : ℕ → Command → (raise_on_error : Bool) → Option String → Method Reply
  retry zero command raise_on_error release world = (raised still_retrying, world)
  retry (suc fuel) command raise_on_error release world =
      let finished = attempt command raise_on_error release world in
      retry_if (is_retried finished.0) (retry fuel command raise_on_error release) finished

  unfoldable pub run_cmd : Command → (raise_on_error : Bool) → Option String → Method Reply
  run_cmd command raise_on_error release = retry helm.attempts command raise_on_error release

  -- `HelmManager.list`, the names
  unfoldable pub list_names : Method (List String)
  list_names = do
    reply ← run_cmd list_releases true none
    λ world. (ok (keys world.releases), world)

  -- `HelmManager.get_release_values`: none stands for no values
  unfoldable pub get_release_values : String → Method (Option String)
  get_release_values name = do
    reply ← run_cmd (get_values name) true none
    λ world. (ok (lookup name world.releases), world)

  -- `HelmManager.install`, `HelmManager.install_bundle`
  unfoldable pub install : (String × String) → Method (Unit {0})
  install release = do
    reply ← run_cmd (install_release release.0 release.1) true (some release.0)
    pure tt

  unfoldable pub install_bundle : List (String × String) → Method (Unit {0})
  install_bundle releases = each install releases

  -- `HelmManager.delete`
  unfoldable pub delete : String → Method (Unit {0})
  delete name = do
    reply ← run_cmd (delete_release name) false none
    if reply.has_stderr && not reply.not_loaded then raise temporary else pure tt

  -- `HelmManager.delete_bundle`
  unfoldable pub delete_bundle : List String → Method (Unit {0})
  delete_bundle available = do
    current ← list_names
    each delete (select (contains available) current)

  -- `HelmManager.delete_not_active_releases`
  unfoldable pub delete_not_active_releases :
      List (String × String) → (available : List String) → Method (Unit {0})
  delete_not_active_releases releases available =
      each delete (select (λ name. not (contains (keys releases) name)) available)
