-- ===== src/Spawn/Closed.antt =====
-- The pods of jobs and of applications mount only volumes that they have.
use primehub_controller.Numeric.{Numeric}
use primehub_controller.Spawn.Build.{
  patch_containers, patched_init, PodSpec, build_init_container, patch_pod_spec, build_pod_spec,
  build_container,
}
use primehub_controller.Prelude.{some, [], ◌∷◌, All-append, All-map, none, All, ◌++◌, List}
use primehub_controller.Spawn.Mounts.{
  AllMounted-after, AllMounted-before, IsClosed, AllMounted, IsReady,
}
use primehub_controller.Spawn.{Container, Spawner, Volume}

module _ {Q : Type 0} where
  pub container-after :
      (volumes others : List (Volume Q)) (containers : List (Container Q))
      → All (λ container. AllMounted volumes container.volume_mounts) containers
      → All (λ container. AllMounted (volumes ++ others) container.volume_mounts) containers
  container-after volumes others containers =
      All-map _ containers (λ container. AllMounted-after volumes others container.volume_mounts)

module _ ⦃api : Numeric⦄ where
  open api use {Quantity, Float}

  build_container-closed :
      (spawner : Spawner Quantity) (others : List (Volume Quantity))
      → IsReady spawner
      → AllMounted (others ++ spawner.volumes) (build_container spawner none).volume_mounts
  unfolding build_container IsReady
  build_container-closed spawner others h =
      rw h.1 (AllMounted-before spawner.volumes others spawner.volume_mounts h.0)

  pub build_pod_spec-IsClosed :
      (spawner : Spawner Quantity) (pod : PodSpec Quantity)
      → IsReady spawner
      → IsClosed pod
      → IsClosed (build_pod_spec spawner pod)
  unfolding build_pod_spec
  build_pod_spec-IsClosed spawner pod h k = (
    All-append _ pod.containers (build_container spawner none ∷ [])
        (container-after pod.volumes spawner.volumes pod.containers k.0)
        (build_container-closed spawner pod.volumes h, tt),
    container-after pod.volumes spawner.volumes pod.init_containers k.1,
  )

  patched-closed :
      (volumes : List (Volume Quantity)) (container : Container Quantity)
      (inits : List (Container Quantity))
      → AllMounted volumes container.volume_mounts
      → All (λ c. AllMounted volumes c.volume_mounts) (patched_init container inits)
  patched-closed volumes container [] h = tt
  patched-closed volumes container (first ∷ others) h = (h, tt)

  patch_containers-IsClosed :
      (spawner : Spawner Quantity) (pod : PodSpec Quantity) (containers : List (Container Quantity))
      → IsReady spawner
      → IsClosed pod
      → All (λ c. AllMounted pod.volumes c.volume_mounts) containers
      → IsClosed (patch_containers spawner pod containers)
  unfolding patch_containers build_container build_init_container IsReady
  patch_containers-IsClosed spawner pod [] h k given = build_pod_spec-IsClosed spawner pod h k
  patch_containers-IsClosed spawner pod (first ∷ others) h k given =
      let main : AllMounted (pod.volumes ++ spawner.volumes)
          (first.volume_mounts ++ spawner.volume_mounts) =
        All-append _ first.volume_mounts spawner.volume_mounts
          (AllMounted-after pod.volumes spawner.volumes first.volume_mounts given.0)
          (AllMounted-before spawner.volumes pod.volumes spawner.volume_mounts h.0) in
      (
        (main, tt),
        (
          rw h.2 (AllMounted-before spawner.volumes pod.volumes spawner.volume_mounts h.0),
          patched-closed _ (build_container spawner (some first)) pod.init_containers main,
        ),
      )

  pub patch_pod_spec-IsClosed :
      (spawner : Spawner Quantity) (pod : PodSpec Quantity)
      → IsReady spawner
      → IsClosed pod
      → IsClosed (patch_pod_spec spawner pod)
  unfolding patch_pod_spec
  patch_pod_spec-IsClosed spawner pod h k =
      patch_containers-IsClosed spawner pod pod.containers h k k.0
