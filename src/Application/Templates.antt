-- ===== src/Application/Templates.antt =====
-- The pod template of an application.
use mathlib.Core.Option.{none-ne-some}
use primehub_controller.Prelude.{List, String, [], ◌∷◌, none, ◌≡◌, sym, inl, inr, List-cases, All}
use primehub_controller.Numeric.{Numeric}
use primehub_controller.GoText.{Casing}
use primehub_controller.Graphql.{UserGroup, DtoDataset}
use primehub_controller.Spawn.{Container, SpawnerOptions, Volume}
use primehub_controller.Spawn.Build.{PodSpec}
use primehub_controller.Spawn.Constructors.{new_spawner_for_ph_application}
use primehub_controller.Spawn.Mounts.{IsClosed, AllMounted}
use primehub_controller.Airgap.{apply_air_gap_image_prefix, patch_images, patch_container_image}
use primehub_controller.Quota.{DtoInstanceType}

module _ {Q : Type 0} where
  patch_images-closed :
      (volumes : List (Volume Q)) (prefix : String) (containers : List (Container Q))
      → All (λ container. AllMounted volumes container.volume_mounts) containers
      → All
          (λ container. AllMounted volumes container.volume_mounts)
          (patch_images prefix containers)
  unfolding patch_images patch_container_image
  patch_images-closed volumes prefix [] h = tt
  patch_images-closed volumes prefix (container ∷ containers) h =
      (h.0, patch_images-closed volumes prefix containers h.1)

  pub apply_air_gap-IsClosed :
      (prefix : String) (pod : PodSpec Q)
      → IsClosed pod
      → IsClosed (apply_air_gap_image_prefix prefix pod)
  unfolding apply_air_gap_image_prefix
  apply_air_gap-IsClosed prefix pod h = (
    patch_images-closed pod.volumes prefix pod.containers h.0,
    patch_images-closed pod.volumes prefix pod.init_containers h.1,
  )

  pub apply_air_gap-empty :
      (prefix : String) (pod : PodSpec Q)
      → (apply_air_gap_image_prefix prefix pod).containers ≡ []
      → pod.containers ≡ []
  unfolding apply_air_gap_image_prefix patch_images
  apply_air_gap-empty prefix pod e = elim (List-cases pod.containers) [
    | inl empty ↦ empty
    | inr (container, others, given) ↦ let clash = rw given at e in absurd (cc)
  ]

module _ ⦃api : Numeric⦄ (casing : Casing)
    (range : List (String × DtoDataset) → List (String × DtoDataset))
    (megabyte : api.Quantity) where
  open api use {Quantity, Float}

  pub new_spawner_for_ph_application-panics :
      (five_gibibytes : Quantity) (app_id primehub_url : String) (group : UserGroup Float)
      (instance_type : DtoInstanceType Float) (global_datasets : List DtoDataset)
      (spec : PodSpec Quantity) (app_root : String) (options : SpawnerOptions Quantity)
      → new_spawner_for_ph_application casing range megabyte five_gibibytes app_id primehub_url
          group instance_type global_datasets spec app_root options
        ≡ none
      → spec.containers ≡ []
  unfolding new_spawner_for_ph_application
  new_spawner_for_ph_application-panics five_gibibytes app_id primehub_url group instance_type
        global_datasets spec app_root options e =
      elim (List-cases spec.containers) [
        | inl empty ↦ empty
        | inr (container, others, given) ↦ absurd (none-ne-some _ (sym (rw given at e)))
      ]
