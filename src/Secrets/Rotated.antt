-- ===== src/Secrets/Rotated.antt =====
-- The rotation of a class of secrets: which one is promoted, what is left alone, what is refused.
use openstack_controller.Secrets.Fill.{Fields}
use openstack_controller.Common.{
  ◌==◌, if◌then◌else◌, lookup, ℕ, ◌≤◌, ◌<◌, String, ◌≡◌, refl, sym, ap, ◌∙◌, subst, ◌≢◌, false,
  none, some, List, [], ◌∷◌, arith, nat_eq, string_eq,
}
use openstack_controller.Secrets.Rotate.{
  set_secret_priority, SecretClass, Cluster, Found, Outcome, promote, rotate, k8s_secrets, rotated,
  rotate_sorted, already_rotated, greater_rotation_id, next_data, raised, save,
}
use openstack_controller.Secrets.Promoted.{promoted, sorted-AreFound, after_promotion, lookup-save}

-- The backup is first, with the rotation id and the new content, then the secret that was active, and
-- no other secret has changed.
abbrev pub IsPromoted :
    SecretClass → (active backup : Found) → ℕ → Fields → Cluster → Outcome × Cluster → Type 0
IsPromoted class active backup id content before result =
    (result.0 ≡ rotated)
    × (k8s_secrets class result.1 ≡ (backup.0, promoted id content backup.1) ∷ active ∷ [])
    × ((name : String) → (backup.0 == name) ≡ false → lookup name result.1 ≡ lookup name before)

module _ (class : SecretClass) where
  promote-IsPromoted :
      (cluster : Cluster) (active backup : Found) (id : ℕ) (content : Fields)
      → (class.base_name == class.other_name) ≡ false
      → k8s_secrets class cluster ≡ active ∷ backup ∷ []
      → active.1.priority < id
      → next_data class active.1.content backup.1.content ≡ some content
      → IsPromoted class active backup id content cluster (promote class active backup id cluster)
  unfolding promote k8s_secrets
  promote-IsPromoted cluster active backup id content distinct sorted less made =
      let (found, also, differ, which) =
        sorted-AreFound cluster class.base_name class.other_name active backup distinct sorted in
      subst
        (λ o. IsPromoted class active backup id content cluster (elim o [
          | none ↦ (raised, cluster)
          | some c ↦ (rotated, set_secret_priority backup.0 id (save backup.0 c cluster))
        ]))
        (sym made)
        (
          refl,
          after_promotion cluster active backup id content found also differ less _ which,
          λ name other.
              lookup-save backup.0 content cluster backup.1 id name also
              ∙ ap (λ b. if b then some (promoted id content backup.1) else lookup name cluster)
                  other,
        )

  rotate-promote :
      (cluster : Cluster) (active backup : Found) (id : ℕ)
      → k8s_secrets class cluster ≡ active ∷ backup ∷ []
      → active.1.priority < id
      → rotate class id cluster ≡ promote class active backup id cluster
  unfolding rotate rotate_sorted
  rotate-promote cluster active backup id sorted less =
      ap (λ l. rotate_sorted class l id cluster) sorted ∙ ground (arith, less)

  -- A rotation with a greater rotation id than that of the active secret promotes the backup, if its new
  -- data can be made: it becomes the first of the sorted secrets, with the rotation id and the new data
  -- set over its own, the active one becomes the second and is unchanged, and no other secret of the
  -- cluster changes. The names of the two secrets differ, and both exist.
  pub rotate-IsPromoted :
      (cluster : Cluster) (active backup : Found) (id : ℕ) (content : Fields)
      → (class.base_name == class.other_name) ≡ false
      → k8s_secrets class cluster ≡ active ∷ backup ∷ []
      → active.1.priority < id
      → next_data class active.1.content backup.1.content ≡ some content
      → IsPromoted class active backup id content cluster (rotate class id cluster)
  rotate-IsPromoted cluster active backup id content distinct sorted less made =
      subst (IsPromoted class active backup id content cluster)
        (sym (rotate-promote cluster active backup id sorted less))
        (promote-IsPromoted cluster active backup id content distinct sorted less made)

  rotate-guarded :
      (cluster : Cluster) (active backup : Found) (id : ℕ)
      → k8s_secrets class cluster ≡ active ∷ backup ∷ []
      → id ≤ active.1.priority
      → rotate class id cluster
        ≡ ((if active.1.priority == id then already_rotated else greater_rotation_id), cluster)
  unfolding rotate rotate_sorted
  rotate-guarded cluster active backup id sorted less =
      ap (λ l. rotate_sorted class l id cluster) sorted ∙ ground (arith, less)

  -- After a rotation that promoted a backup, one with the same rotation id reports that it is done and one
  -- with a lower rotation id is refused, and neither changes a secret. The names of the two secrets
  -- differ, both exist, and the first rotation had a greater id than the active secret's and could make
  -- its data.
  pub rotate-again :
      (cluster : Cluster) (active backup : Found) (id later : ℕ) (content : Fields)
      → (class.base_name == class.other_name) ≡ false
      → k8s_secrets class cluster ≡ active ∷ backup ∷ []
      → active.1.priority < id
      → next_data class active.1.content backup.1.content ≡ some content
      → later ≤ id
      → rotate class later (rotate class id cluster).1 ≡ (
        (if id == later then already_rotated else greater_rotation_id),
        (rotate class id cluster).1,
      )
  rotate-again cluster active backup id later content distinct sorted less made le =
      rotate-guarded (rotate class id cluster).1 (backup.0, promoted id content backup.1) active
        later (rotate-IsPromoted cluster active backup id content distinct sorted less made).1 le

  rotate_sorted-kept :
      (found : List Found) (id : ℕ) (cluster : Cluster)
      → (rotate_sorted class found id cluster).0 ≢ rotated
      → (rotate_sorted class found id cluster).1 ≡ cluster
  unfolding rotate_sorted promote
  rotate_sorted-kept [] id cluster h = refl
  rotate_sorted-kept (a ∷ []) id cluster h = refl
  rotate_sorted-kept (a ∷ b ∷ []) id cluster h = ground (arith, h)
  rotate_sorted-kept (a ∷ b ∷ c ∷ more) id cluster h = refl

  -- A rotation that does not report success, because it was done, because its id is lower than the
  -- active secret's, because there are not two secrets to sort or because the new data cannot be made,
  -- leaves the cluster as it was.
  pub rotate-kept :
      (id : ℕ) (cluster : Cluster)
      → (rotate class id cluster).0 ≢ rotated
      → (rotate class id cluster).1 ≡ cluster
  unfolding rotate
  rotate-kept id cluster h = rotate_sorted-kept (k8s_secrets class cluster) id cluster h
