-- ===== src/Spawn/Mounts.antt =====
-- Every mount of a container names a volume of its pod.
use primehub_controller.Prelude.{
  refl, All-append, str_eq_refl, ◌||◌, All-map, arith, str_eq, ◌∷◌, ◌++◌, false, [], true, Bool,
  ◌≡◌, All, List, String,
}
use primehub_controller.Spawn.Build.{PodSpec}
use primehub_controller.Spawn.Steps.{Steps}
use primehub_controller.Spawn.{VolumeMount, VolumeSource, Volume, Spawner}
use primehub_controller.Spawn.Volumes.{add_env, add_symlink, mount}

abbrev pub has_volume : {Q : Type 0} → String → List (Volume Q) → Bool
has_volume name [] = false
has_volume name (volume ∷ volumes) = str_eq volume.name name || has_volume name volumes

abbrev pub AllMounted : {Q : Type 0} → List (Volume Q) → List VolumeMount → Type 0
AllMounted volumes mounts = All (λ m. has_volume m.name volumes ≡ true) mounts

-- Every mount of every container names a volume.
abbrev pub IsClosed : {Q : Type 0} → PodSpec Q → Type 0
IsClosed pod =
    All (λ container. AllMounted pod.volumes container.volume_mounts) pod.containers
    × All (λ container. AllMounted pod.volumes container.volume_mounts) pod.init_containers

module _ {Q : Type 0} where
  pub has_volume-before :
      (name : String) (volumes others : List (Volume Q))
      → has_volume name volumes ≡ true
      → has_volume name (others ++ volumes) ≡ true
  has_volume-before name volumes [] h = h
  has_volume-before name volumes (other ∷ others) h =
      ground (arith, has_volume-before name volumes others h)

  has_volume-after :
      (name : String) (volumes others : List (Volume Q))
      → has_volume name volumes ≡ true
      → has_volume name (volumes ++ others) ≡ true
  has_volume-after name [] others h = absurd (ground arith)
  has_volume-after name (volume ∷ volumes) others h =
      let rest = has_volume-after name volumes others in ground arith

  pub AllMounted-before :
      (volumes others : List (Volume Q)) (mounts : List VolumeMount)
      → AllMounted volumes mounts
      → AllMounted (others ++ volumes) mounts
  AllMounted-before volumes others mounts =
      All-map _ mounts (λ m. has_volume-before m.name volumes others)

  pub AllMounted-after :
      (volumes others : List (Volume Q)) (mounts : List VolumeMount)
      → AllMounted volumes mounts
      → AllMounted (volumes ++ others) mounts
  AllMounted-after volumes others mounts =
      All-map _ mounts (λ m. has_volume-after m.name volumes others)

  -- The mounts of a spawner name its volumes, and its own containers have none yet.
  unfoldable pub IsReady : Spawner Q → Type 0
  IsReady spawner =
      AllMounted spawner.volumes spawner.volume_mounts
      × (spawner.container.volume_mounts ≡ [])
      × (spawner.init_container.volume_mounts ≡ [])

  pub mount-IsReady :
      (source : VolumeSource Q) (m : VolumeMount) (spawner : Spawner Q)
      → IsReady spawner
      → IsReady (mount source m spawner)
  unfolding IsReady mount
  mount-IsReady source m spawner h =
      let named : has_volume m.name (record { name = m.name; source = source } ∷ []) ≡ true =
        rw (str_eq_refl m.name) refl in
      (
        All-append _ spawner.volume_mounts (m ∷ [])
            (AllMounted-after spawner.volumes _ spawner.volume_mounts h.0)
            (has_volume-before m.name _ spawner.volumes named, tt),
        h.1,
        h.2,
      )

  pub IsReady-Steps : Steps IsReady
  unfolding IsReady add_symlink add_env
  IsReady-Steps = record {
    mounted = mount-IsReady;
    linked = λ line spawner h. h;
    extended = λ variables spawner h. h;
  }
