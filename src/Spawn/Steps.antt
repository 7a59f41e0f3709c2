-- ===== src/Spawn/Steps.antt =====
-- What holds of a spawner through the steps that put it together.
use primehub_controller.Prelude.{
  String, Bool, true, false, Option, none, some, List, [], ◌∷◌, if◌then◌else◌,
}
use primehub_controller.GoText.{Casing}
use primehub_controller.Graphql.{DtoDataset, UserGroup}
use primehub_controller.Spawn.{VolumeMount, VolumeSource, EnvVar, Spawner}
use primehub_controller.Spawn.Volumes.{
  add_env, apply_empty_dir_volume, link_home, apply_volume_for_phfs, apply_volume_for_group,
  add_symlink, mount,
}
use primehub_controller.Spawn.Datasets.{
  end_dataset, apply_volume_for_env_dataset, apply_volume_for_dataset_dir, apply_each,
  apply_dataset, apply_volume_for_nfs_dataset, apply_volume_for_host_path_dataset,
  apply_dataset_volume, mount_dataset,
}

-- A property of spawners that the small steps keep.
pub record Steps {Q : Type 0} (P : Spawner Q → Type 0) : Type 0 where
  pub mounted :
      (source : VolumeSource Q) (m : VolumeMount) (spawner : Spawner Q)
      → P spawner
      → P (mount source m spawner)
  pub linked : (line : String) (spawner : Spawner Q) → P spawner → P (add_symlink line spawner)
  pub extended :
      (variables : List EnvVar) (spawner : Spawner Q) → P spawner → P (add_env variables spawner)

module _ {Q : Type 0} (P : Spawner Q → Type 0) where
  -- What a call that may have panicked, or may not apply, leaves.
  abbrev pub AreKept : Option (Spawner Q) → Type 0
  AreKept none = Unit
  AreKept (some spawner) = P spawner

  pub if_keeps : (b : Bool) (s t : Spawner Q) → P s → P t → P (if b then s else t)
  if_keeps true s t h k = h
  if_keeps false s t h k = k

  if_option_keeps :
      (b : Bool) (s t : Option (Spawner Q)) → AreKept s → AreKept t → AreKept (if b then s else t)
  if_option_keeps true s t h k = h
  if_option_keeps false s t h k = k

module _ {Q : Type 0} (P : Spawner Q → Type 0) (steps : Steps P) (casing : Casing) where
  open steps use {mounted, linked, extended}

  mount_dataset_keeps :
      (source : VolumeSource Q) (a b c d : String) (read_only : Bool) (spawner : Spawner Q)
      → P spawner
      → P (mount_dataset casing source a b c d read_only spawner)
  unfolding mount_dataset
  mount_dataset_keeps source a b c d read_only spawner h = linked _ _ (mounted source _ spawner h)

  link_home_keeps :
      (b : Bool) (path dir : String) (spawner : Spawner Q)
      → P spawner
      → P (link_home casing b path dir spawner)
  link_home_keeps b path dir spawner h = if_keeps P _ _ spawner (linked _ spawner h) h

  pub apply_volume_for_group_keeps :
      {F : Type 0} (launch_group : String) (group : UserGroup F) (dir : String)
      (spawner : Spawner Q)
      → P spawner
      → P (apply_volume_for_group casing launch_group group dir spawner)
  unfolding apply_volume_for_group
  apply_volume_for_group_keeps launch_group group dir spawner h =
      search (if_keeps P, link_home_keeps, mounted)

  pub apply_volume_for_phfs_keeps :
      (group_name pvc dir : String) (spawner : Spawner Q)
      → P spawner
      → P (apply_volume_for_phfs casing group_name pvc dir spawner)
  unfolding apply_volume_for_phfs
  apply_volume_for_phfs_keeps group_name pvc dir spawner h =
      if_keeps P _ spawner _ h (linked _ _ (mounted _ _ spawner h))

  apply_dataset_volume_keeps :
      (dataset : DtoDataset) (a b c : String) (spawner : Spawner Q)
      → P spawner
      → AreKept P (apply_dataset_volume casing dataset a b c spawner)
  unfolding apply_dataset_volume apply_volume_for_host_path_dataset apply_volume_for_nfs_dataset
  apply_dataset_volume_keeps dataset a b c spawner h =
      search (if_option_keeps P, if_keeps P, mount_dataset_keeps) depth 10

  end_dataset_keeps :
      (dataset : DtoDataset) (path : String) (spawner : Spawner Q) (done : Option (Spawner Q))
      → P spawner
      → AreKept P done
      → P (end_dataset casing dataset path spawner done)
  unfolding end_dataset apply_volume_for_env_dataset
  end_dataset_keeps dataset path spawner none h k =
      if_keeps P _ (add_env _ spawner) spawner (extended _ spawner h) h
  end_dataset_keeps dataset path spawner (some done) h k =
      if_keeps P _ (add_symlink _ done) done (linked _ done k) k

  apply_dataset_keeps :
      (dataset : DtoDataset) (spawner : Spawner Q)
      → P spawner
      → P (apply_dataset casing dataset spawner)
  unfolding apply_dataset
  apply_dataset_keeps dataset spawner h =
      end_dataset_keeps dataset _ spawner _ h (apply_dataset_volume_keeps dataset _ _ _ spawner h)

  pub apply_each_keeps :
      (datasets : List DtoDataset) (spawner : Spawner Q)
      → P spawner
      → P (apply_each casing datasets spawner)
  unfolding apply_each
  apply_each_keeps [] spawner h = h
  apply_each_keeps (dataset ∷ datasets) spawner h =
      apply_each_keeps datasets _ (apply_dataset_keeps dataset spawner h)

  pub apply_volume_for_dataset_dir_keeps :
      (size : Q) (dir : String) (spawner : Spawner Q)
      → P spawner
      → P (apply_volume_for_dataset_dir casing size dir spawner)
  unfolding apply_volume_for_dataset_dir apply_empty_dir_volume
  apply_volume_for_dataset_dir_keeps size dir spawner h = linked _ _ (mounted _ _ spawner h)
