-- ===== src/Services/Base.antt =====
-- `Service` of openstack_controller/services/base.py: what a service does when it is applied, upgraded and
-- deleted. What is rendered, the healths of other services, and the hashes and images that are read from
-- values are given.
use openstack_controller.Common.{
  ◌==◌, if◌then◌else◌, any, contains, Dict, lookup, insert, remove, String, Bool, true, false, not,
  ◌&&◌, ◌||◌, Option, none, some, List, [], ◌∷◌, map, nat_eq, string_eq,
}
use openstack_controller.Services.World.{
  still_retrying, Method, pure, raise, modify, each, gather, ◌>>=◌, ◌>>◌, World, Result, ok, raised,
  temporary, other, State, state_applying, state_applied, state_deleting, timed_out,
}
use openstack_controller.Services.Helm.{
  Program, get_release_values, delete_bundle, same_object, install_bundle, list_names,
  delete_not_active_releases, delete_object,
}

pub record Release : Type 0 where
  pub name : String
  pub chart : String
  pub release_values : String

-- A child object: what `child_objects` reads of its description.
pub record Resource : Type 0 where
  pub kind : String
  pub resource_name : String
  pub resource_chart : String
  pub immutable : Bool
  pub has_hash_fields : Bool
  pub images : List String

pub record Service : Type 0 where
  pub service : String
  pub available_releases : List String
  pub child_objects : List Resource
  -- `spec_hash` of the spec, and `version.release_string`
  pub fingerprint : String
  pub controller_version : String
  -- `render`, with the overrides merged, which may raise
  pub render : World → Result (List Release)
  -- how `wait_service_healthy` ends
  pub healthy : World → Result (Unit {0})
  -- how the hook `_upgrade` ends
  pub upgrade_hook : World → Result (Unit {0})
  -- the hash of a child object by its fields, in values
  pub hash : Resource → Option String → String
  -- the hash that the values keep of it
  pub stored_hash : Resource → Option String → Option String
  -- whether values are an empty dictionary
  pub is_empty : String → Bool
  -- `values["images"]["tags"]`, where none is a KeyError
  pub tags : Option String → Option (Dict String)

abbrev pub same_text : Option String → Option String → Bool
same_text none none = true
same_text (some a) (some b) = a == b
same_text _ _ = false

-- The argument of `set_children_status`.
pub data Phase : Type 0 where
  phase_applying phase_upgrading phase_applied phase_deleting phase_removed : Phase

-- `release_mapping.get(chart, {}).get("old_values", {})`, and the new ones
unfoldable pub values_of :
    String → Dict (Option String × Option String) → Option String × Option String
values_of chart mapping = elim (lookup chart mapping) [ none ↦ (none, none) | some entry ↦ entry ]

-- `d[key]`, where none is a KeyError
abbrev pub or_key_error : {A : Type 0} → Option A → Method A
or_key_error none = raise other
or_key_error (some a) = pure a

abbrev pub object_of : Resource → String × String
object_of resource = (resource.kind, resource.resource_name)

abbrev pub exists : Resource → World → Bool
exists resource world = any (λ o. same_object o (object_of resource)) world.objects

abbrev pub named_values : Release → String × String
named_values release = (release.name, release.release_values)

-- `except Exception`: a TemporaryError in place of any other. A command that is still retried has
-- not raised.
abbrev pub or_temporary : Result (Unit {0}) × World → Result (Unit {0}) × World
or_temporary (ok a, world) = (ok a, world)
or_temporary (raised still_retrying, world) = (raised still_retrying, world)
or_temporary (raised e, world) = (raised temporary, world)

module _ (helm : Program) (self : Service) where
  -- `not values`
  abbrev pub is_falsy : Option String → Bool
  is_falsy none = true
  is_falsy (some given) = self.is_empty given

  abbrev pub are_missing : Option String × Option String → Bool
  are_missing both = is_falsy both.0 && is_falsy both.1

  -- `set_service_status`, `remove_service_status`
  unfoldable pub set_service_status : State → World → World
  set_service_status state world = record world {
    services =
        insert self.service
          (record {
            state = state;
            fingerprint = self.fingerprint;
            controller_version = self.controller_version;
          })
          world.services;
  }

  unfoldable pub remove_service_status : World → World
  remove_service_status world = record world { services = remove self.service world.services }

  unfoldable pub set_children_status : Phase → Method (Unit {0})
  set_children_status phase_applying = modify (set_service_status state_applying)
  set_children_status phase_upgrading = modify (set_service_status state_applying)
  set_children_status phase_applied = modify (set_service_status state_applied)
  set_children_status phase_deleting = modify (set_service_status state_deleting)
  set_children_status phase_removed = modify remove_service_status

  -- The loop that fills `release_mapping`: old and new values by chart, up to the first release that is
  -- not installed.
  unfoldable pub map_releases :
      (installed : List String) → List Release → Method (Dict (Option String × Option String))
  map_releases installed [] = pure []
  map_releases installed (release ∷ releases) =
      if contains installed release.name
      then (do
        old ← get_release_values helm release.name
        rest ← map_releases installed releases
        pure (elim (lookup release.chart rest) [
          | some entry ↦ rest
          | none ↦ insert release.chart (old, some release.release_values) rest
        ]))
      else pure []

  -- `_is_immutable_changed`
  unfoldable pub is_image_changed : Option String × Option String → String → Method Bool
  is_image_changed both image = if are_missing both then pure false else (do
    old_tags ← or_key_error (self.tags both.0)
    new_tags ← or_key_error (self.tags both.1)
    new_image ← or_key_error (lookup image new_tags)
    pure (not (same_text (lookup image old_tags) (some new_image))))

  -- The loop over the images, up to the first that is changed.
  unfoldable pub is_any_changed : Option String × Option String → List String → Method Bool
  is_any_changed both [] = pure false
  is_any_changed both (image ∷ images) = do
    changed ← is_image_changed both image
    elim changed [ true ↦ pure true | false ↦ is_any_changed both images ]

  unfoldable pub is_child_object_hash_changed : Resource → Option String × Option String → Bool
  is_child_object_hash_changed resource (old_values, new_values) = not (
      same_text (if resource.has_hash_fields then some (self.hash resource new_values) else none)
        (self.stored_hash resource old_values))

  -- The body of the loop over the resources: whether it is to be cleaned up.
  unfoldable pub is_to_cleanup : Dict (Option String × Option String) → Resource → Method Bool
  is_to_cleanup mapping resource = do
    let both = values_of resource.resource_chart mapping
    is_there ← λ world. (ok (exists resource world), world)
    if not is_there || (not resource.immutable && not resource.has_hash_fields) || are_missing both
        then pure false
        else (do
          image_changed ←
              (if resource.immutable then is_any_changed both resource.images else pure false)
          pure (is_child_object_hash_changed resource both || image_changed))

  unfoldable pub to_cleanup :
      Dict (Option String × Option String) → List Resource → Method (List Resource)
  to_cleanup mapping [] = pure []
  to_cleanup mapping (resource ∷ resources) = do
    chosen ← is_to_cleanup mapping resource
    rest ← to_cleanup mapping resources
    pure (if chosen then resource ∷ rest else rest)

  -- `purge` of a child object
  unfoldable pub purge : Resource → Method (Unit {0})
  purge resource world =
      if exists resource world
      then (if helm.is_gone (object_of resource)
          then (ok tt, delete_object (object_of resource) world)
          else (raised timed_out, world))
      else (ok tt, world)

  unfoldable pub cleanup_immutable_resources : List Release → Method (Unit {0})
  cleanup_immutable_resources releases = do
    installed ← list_names helm
    mapping ← map_releases installed releases
    chosen ← to_cleanup mapping self.child_objects
    gather purge chosen

  unfoldable pub render : Method (List Release)
  render world = (self.render world, world)

  unfoldable pub apply : Method (Unit {0})
  apply = do
    set_children_status phase_applying
    releases ← render
    each (λ release. cleanup_immutable_resources releases) releases
    install_bundle helm (map named_values releases)
    delete_not_active_releases helm (map named_values releases) self.available_releases
    set_children_status phase_applied

  unfoldable pub wait_service_healthy : Method (Unit {0})
  wait_service_healthy world = (self.healthy world, world)

  unfoldable pub run_upgrade_hook : Method (Unit {0})
  run_upgrade_hook world = (self.upgrade_hook world, world)

  -- The block of `try` in `upgrade`.
  unfoldable pub try_upgrade : Method (Unit {0})
  try_upgrade = do wait_service_healthy; run_upgrade_hook; apply; wait_service_healthy

  unfoldable pub upgrade : Method (Unit {0})
  upgrade = do
    set_children_status phase_upgrading
    λ world. or_temporary (try_upgrade world)
    set_children_status phase_applied

  -- `Service.delete`
  unfoldable pub delete_service : Method (Unit {0})
  delete_service = do
    set_children_status phase_deleting
    delete_bundle helm self.available_releases
    set_children_status phase_removed
