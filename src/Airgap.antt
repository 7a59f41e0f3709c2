-- ===== src/Airgap.antt =====
-- pkg/airgap/airgap.go: the prefix of the images where the cluster has no way out.
use Prim.Native.String.{◌++◌ as ◌+++◌}
use primehub_controller.Prelude.{List, String, [], ◌∷◌, if◌then◌else◌}
use primehub_controller.GoText.Search.{contains}
use primehub_controller.Spawn.{Container}
use primehub_controller.Spawn.Build.{PodSpec}

unfoldable pub prefixed_image : String → String → String
prefixed_image prefix image = if contains image prefix then image else prefix +++ image

module _ {Q : Type 0} where
  -- func PatchContainerImage
  unfoldable pub patch_container_image : String → Container Q → Container Q
  patch_container_image prefix container = record container {
    image = prefixed_image prefix container.image;
  }

  -- A loop of ApplyAirGapImagePrefix.
  unfoldable pub patch_images : String → List (Container Q) → List (Container Q)
  patch_images prefix [] = []
  patch_images prefix (container ∷ containers) =
      patch_container_image prefix container ∷ patch_images prefix containers

  -- func ApplyAirGapImagePrefix
  unfoldable pub apply_air_gap_image_prefix : String → PodSpec Q → PodSpec Q
  apply_air_gap_image_prefix prefix spec = record spec {
    init_containers = patch_images prefix spec.init_containers;
    containers = patch_images prefix spec.containers;
  }
