-- ===== src/Deployment/Mounts.antt =====
-- What the pod of a model deployment mounts.
use mathlib.Core.Bool.{true≢false}
use primehub_controller.Prelude.{
  Bool, List, Option, Result, String, [], ◌∷◌, false, true, some, none, ok, err, ◌≡◌, ◌⊎◌, sym, ◌∙◌,
  if◌then◌else◌, All, All-append, inl, inr,
}
use primehub_controller.GoText.{Casing, is_empty}
use primehub_controller.Spawn.{Container, VolumeMount}
use primehub_controller.Deployment.Phases.{if-Means}
use primehub_controller.Deployment.ModelVolumes.{ModelVolume, Storage, nfs_mount, phfs_mount}
use primehub_controller.Deployment.Containers.{model_mounts}
use primehub_controller.Deployment.Build.{DeploymentSpec}
use primehub_controller.Airgap.{patch_container_image, patch_images}
use primehub_controller.Deployment.{PhDeploymentSpec}
use primehub_controller.Deployment.Known.{has_model_volume, AllKnown}
use primehub_controller.Deployment.Closed.{IsServed}

-- Every mount of every container names a volume.
unfoldable pub IsClosedDeployment : {Q : Type 0} → DeploymentSpec Q → Type 0
IsClosedDeployment deployment =
    All (λ container. AllKnown deployment.volumes container.volume_mounts) deployment.containers
    × All (λ container. AllKnown deployment.volumes container.volume_mounts)
        deployment.init_containers

unfoldable pub AreClosed : {Q : Type 0} → Option (Result (DeploymentSpec Q)) → Type 0
AreClosed none = Unit
AreClosed (some (err e)) = Unit
AreClosed (some (ok deployment)) = IsClosedDeployment deployment

if-AllKnown :
    (volumes : List ModelVolume) (b : Bool) (mounts others : List VolumeMount)
    → (b ≡ true → AllKnown volumes mounts)
    → (b ≡ false → AllKnown volumes others)
    → AllKnown volumes (if b then mounts else others)
if-AllKnown volumes b mounts others = if-Means b (AllKnown volumes) mounts others

-- A mount that is there for a kind of address has its volume.
wanted :
    (volumes : List ModelVolume) (b : Bool) (m : VolumeMount)
    → (b ≡ false) ⊎ (has_model_volume m.name volumes ≡ true)
    → AllKnown volumes (if b then m ∷ [] else [])
wanted volumes b m h =
    if-AllKnown volumes b (m ∷ []) []
      (λ is. (elim h [ inl isnt ↦ absurd (true≢false (sym is ∙ isnt)) | inr known ↦ known ], tt))
      (λ isnt. tt)

pub model_mounts-AllKnown :
    {Q : Type 0} (casing : Casing) (spec : PhDeploymentSpec) (storage : Storage Q)
    → IsServed spec.predictor.model_uri storage
    → AllKnown storage.volumes (model_mounts casing spec)
unfolding IsServed model_mounts
model_mounts-AllKnown casing spec storage (inits, info, sources) = (
  info,
  if-AllKnown storage.volumes (is_empty spec.predictor.model_uri) [] _ (λ empty. tt)
      (λ given. elim sources [
        | inl empty ↦ absurd (true≢false (sym empty ∙ given))
        | inr (scratch, in_group, on_server) ↦ (
          scratch,
          All-append _ _ _ (wanted storage.volumes _ (phfs_mount casing spec.group_name) in_group)
              (wanted storage.volumes _ nfs_mount on_server),
        )
      ]),
)

pub patch_images-AllKnown :
    {Q : Type 0} (volumes : List ModelVolume) (prefix : String) (containers : List (Container Q))
    → All (λ container. AllKnown volumes container.volume_mounts) containers
    → All (λ container. AllKnown volumes container.volume_mounts) (patch_images prefix containers)
unfolding patch_images patch_container_image
patch_images-AllKnown volumes prefix [] h = tt
patch_images-AllKnown volumes prefix (container ∷ containers) h =
    (h.0, patch_images-AllKnown volumes prefix containers h.1)
