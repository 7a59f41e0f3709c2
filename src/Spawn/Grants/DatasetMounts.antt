-- ===== src/Spawn/Grants/DatasetMounts.antt =====
-- The mounts that datasets add to a spawner: one of their names, for writing only if they say so.
use Prim.Native.String.{◌++◌ as ◌+++◌}
use mathlib.Core.Bool.{true≢false}
use primehub_controller.Prelude.{
  refl, [], All-append, ◌∷◌, String, List, if◌then◌else◌, All, arith, Option, ◌≡◌, not, Bool, none,
  some, true, false,
}
use primehub_controller.Graphql.{DtoDataset}
use primehub_controller.GoText.{Casing}
use primehub_controller.Spawn.{VolumeSource, Spawner, VolumeMount}
use primehub_controller.Spawn.Datasets.{
  apply_volume_for_nfs_dataset, apply_dataset, apply_volume_for_env_dataset,
  apply_volume_for_host_path_dataset, apply_each, end_dataset, apply_dataset_volume, mount_dataset,
}
use primehub_controller.Spawn.Volumes.{add_env, add_symlink, mount}

abbrev pub IsMountOf : DtoDataset → VolumeMount → Type 0
IsMountOf dataset m =
    (m.name ≡ "dataset-" +++ dataset.name) × (m.read_only ≡ false → dataset.writable ≡ true)

not-false : (b : Bool) → not b ≡ false → b ≡ true
not-false b e = ground arith

module _ {Q : Type 0} (casing : Casing) (R : VolumeMount → Type 0) where
  unfoldable pub Mounts : Spawner Q → Type 0
  Mounts spawner = All R spawner.volume_mounts

  abbrev MountsAny : Option (Spawner Q) → Type 0
  MountsAny none = Unit
  MountsAny (some spawner) = Mounts spawner

  if-Mounts : (b : Bool) (s t : Spawner Q) → Mounts s → Mounts t → Mounts (if b then s else t)
  if-Mounts true s t h k = h
  if-Mounts false s t h k = k

  if-MountsAny :
      (b : Bool) (s t : Option (Spawner Q))
      → MountsAny s
      → MountsAny t
      → MountsAny (if b then s else t)
  if-MountsAny true s t h k = h
  if-MountsAny false s t h k = k

  mount_dataset-Mounts :
      (dataset : DtoDataset) (source : VolumeSource Q) (path target link : String)
      (spawner : Spawner Q)
      → ((m : VolumeMount) → IsMountOf dataset m → R m)
      → Mounts spawner
      → Mounts (
          mount_dataset casing source
            ("dataset-" +++ dataset.name)
            path
            target
            link
            (not dataset.writable)
            spawner)
  unfolding mount_dataset mount add_symlink Mounts
  mount_dataset-Mounts dataset source path target link spawner f h =
      All-append R spawner.volume_mounts _ h (f _ (refl, not-false dataset.writable), tt)

  mount_dataset_read_only-Mounts :
      (dataset : DtoDataset) (source : VolumeSource Q) (path target link : String)
      (spawner : Spawner Q)
      → ((m : VolumeMount) → IsMountOf dataset m → R m)
      → Mounts spawner
      → Mounts
          (mount_dataset casing source ("dataset-" +++ dataset.name) path target link true spawner)
  unfolding mount_dataset mount add_symlink Mounts
  mount_dataset_read_only-Mounts dataset source path target link spawner f h =
      All-append R spawner.volume_mounts _ h (f _ (refl, λ e. absurd (true≢false e)), tt)

  apply_dataset_volume-MountsAny :
      (dataset : DtoDataset) (path link : String) (spawner : Spawner Q)
      → ((m : VolumeMount) → IsMountOf dataset m → R m)
      → Mounts spawner
      → MountsAny
          (apply_dataset_volume casing dataset ("dataset-" +++ dataset.name) path link spawner)
  unfolding apply_dataset_volume apply_volume_for_host_path_dataset apply_volume_for_nfs_dataset
  apply_dataset_volume-MountsAny dataset path link spawner f h =
      search (if-MountsAny, if-Mounts, mount_dataset-Mounts, mount_dataset_read_only-Mounts) depth
        10

  end_dataset-Mounts :
      (dataset : DtoDataset) (path : String) (spawner : Spawner Q) (mounted : Option (Spawner Q))
      → Mounts spawner
      → MountsAny mounted
      → Mounts (end_dataset casing dataset path spawner mounted)
  unfolding end_dataset apply_volume_for_env_dataset add_env add_symlink Mounts
  end_dataset-Mounts dataset path spawner none h k = if-Mounts _ (add_env _ spawner) spawner h h
  end_dataset-Mounts dataset path spawner (some mounted) h k =
      if-Mounts _ (add_symlink _ mounted) mounted k k

  pub apply_each-Mounts :
      (datasets : List DtoDataset) (spawner : Spawner Q)
      → All (λ dataset. (m : VolumeMount) → IsMountOf dataset m → R m) datasets
      → Mounts spawner
      → Mounts (apply_each casing datasets spawner)
  unfolding apply_each apply_dataset
  apply_each-Mounts [] spawner f h = h
  apply_each-Mounts (dataset ∷ datasets) spawner f h = apply_each-Mounts datasets _ f.1 (
      end_dataset-Mounts dataset _ spawner _ h
        (apply_dataset_volume-MountsAny dataset _ _ spawner f.0 h))
