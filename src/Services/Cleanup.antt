-- ===== src/Services/Cleanup.antt =====
-- What the cleanup of immutable resources and the rest of a service's work keep of the world.
use openstack_controller.Common.{Dict, String, Bool, true, false, Option, none, some, List, [], ◌∷◌}
use openstack_controller.Services.World.{pure}
use openstack_controller.Services.Helm.{Program, Command, delete_match, communicate}
use openstack_controller.Services.Base.{
  Service, Release, Resource, is_any_changed, or_key_error, is_to_cleanup, map_releases,
  is_image_changed, to_cleanup, cleanup_immutable_resources, purge,
}
use openstack_controller.Services.Keeps.{
  Keeps-gather, Keeps-pure, Keeps-raise, Preorder, Keeps, Keeps-bind, Keeps-if,
  Keeps-get_release_values, Keeps-answer, Keeps-list_names,
}

module _ (order : Preorder) (helm : Program) (self : Service)
    (deletes : (o : String × String) → Keeps order (delete_match helm o))
    (calls : (command : Command) → Keeps order (communicate helm command)) where
  Keeps-map_releases :
      (installed : List String) (releases : List Release)
      → Keeps order (map_releases helm self installed releases)
  unfolding map_releases
  Keeps-map_releases installed [] = Keeps-pure order _
  Keeps-map_releases installed (release ∷ releases) =
      Keeps-if order _
        (Keeps-bind order (Keeps-get_release_values order helm deletes calls release.name) (λ old.
          Keeps-bind order (Keeps-map_releases installed releases) (λ rest. Keeps-pure order _)))
        (Keeps-pure order _)

  Keeps-or_key_error : {A : Type 0} (o : Option A) → Keeps order (or_key_error o)
  Keeps-or_key_error none = Keeps-raise order _
  Keeps-or_key_error (some a) = Keeps-pure order a

  Keeps-is_image_changed :
      (both : Option String × Option String) (image : String)
      → Keeps order (is_image_changed helm self both image)
  unfolding is_image_changed
  Keeps-is_image_changed both image = Keeps-if order _ (Keeps-pure order _) (
      Keeps-bind order (Keeps-or_key_error _) (λ a.
        Keeps-bind order (Keeps-or_key_error _)
          (λ b. Keeps-bind order (Keeps-or_key_error _) (λ c. Keeps-pure order _))))

  Keeps-is_any_changed :
      (both : Option String × Option String) (images : List String)
      → Keeps order (is_any_changed helm self both images)
  unfolding is_any_changed
  Keeps-is_any_changed both [] = Keeps-pure order _
  Keeps-is_any_changed both (image ∷ images) =
      Keeps-bind order (Keeps-is_image_changed both image)
        (λ changed. found changed (Keeps-is_any_changed both images))
    where
      found :
          (b : Bool)
          → Keeps order (is_any_changed helm self both images)
          → Keeps order (elim b [ true ↦ pure true | false ↦ is_any_changed helm self both images ])
      found true later = Keeps-pure order _
      found false later = later

  Keeps-is_to_cleanup :
      (mapping : Dict (Option String × Option String)) (resource : Resource)
      → Keeps order (is_to_cleanup helm self mapping resource)
  unfolding is_to_cleanup
  Keeps-is_to_cleanup mapping resource = Keeps-bind order (Keeps-answer order _) (λ is_there.
      Keeps-if order _ (Keeps-pure order _) (
        Keeps-bind order (Keeps-if order _ (Keeps-is_any_changed _ _) (Keeps-pure order _))
          (λ changed. Keeps-pure order _)))

  Keeps-to_cleanup :
      (mapping : Dict (Option String × Option String)) (resources : List Resource)
      → Keeps order (to_cleanup helm self mapping resources)
  unfolding to_cleanup
  Keeps-to_cleanup mapping [] = Keeps-pure order _
  Keeps-to_cleanup mapping (resource ∷ resources) =
      Keeps-bind order (Keeps-is_to_cleanup mapping resource) (λ chosen.
        Keeps-bind order (Keeps-to_cleanup mapping resources) (λ rest. Keeps-pure order _))

  pub Keeps-cleanup_immutable_resources :
      (releases : List Release)
      → ((r : Resource) → Keeps order (purge helm self r))
      → Keeps order (cleanup_immutable_resources helm self releases)
  unfolding cleanup_immutable_resources
  Keeps-cleanup_immutable_resources releases purges =
      Keeps-bind order (Keeps-list_names order helm deletes calls) (λ installed.
        Keeps-bind order (Keeps-map_releases installed releases) (λ mapping.
          Keeps-bind order (Keeps-to_cleanup mapping self.child_objects)
            (λ chosen. Keeps-gather order (purge helm self) chosen purges)))
