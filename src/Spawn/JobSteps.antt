-- ===== src/Spawn/JobSteps.antt =====
-- What holds of a spawner through the steps of NewSpawnerForJob.
use primehub_controller.Prelude.{String, ℤ, List, [], ◌∷◌, some, ◌&&◌, Option}
use primehub_controller.Numeric.{Numeric}
use primehub_controller.GoText.{Casing}
use primehub_controller.Graphql.{DtoDataset, DtoUser, UserGroup}
use primehub_controller.Spawn.{config_map, Spawner, SpawnerOptions}
use primehub_controller.Spawn.Volumes.{
  at_path, positive_env, apply_empty_dir_volume, add_env, apply_user_and_group_env, apply_scripts,
  apply_job_artifact, apply_grant_sudo,
}
use primehub_controller.Spawn.Granted.{granted_datasets, apply_datasets}
use primehub_controller.Spawn.Constructors.{job_rest, job_volumes, apply_group_volumes}
use primehub_controller.Spawn.Steps.{
  Steps, if_keeps, apply_volume_for_group_keeps, apply_volume_for_phfs_keeps, apply_each_keeps,
  apply_volume_for_dataset_dir_keeps,
}

-- A property of spawners that says nothing of the directory, the user and the name of the container.
pub record JobSteps {Q : Type 0} (P : Spawner Q → Type 0) : Type 0 where
  pub steps : Steps P
  pub placed :
      (dir : String) (spawner : Spawner Q) → P spawner → P (record spawner { working_dir = dir })
  pub run_as :
      (user : Option ℤ) (spawner : Spawner Q)
      → P spawner
      → P (record spawner { run_as_user = user })
  pub named :
      (name : String) (spawner : Spawner Q)
      → P spawner
      → P (record spawner { container = record spawner.container { name = name } })

module _ ⦃api : Numeric⦄ (P : Spawner api.Quantity → Type 0) (keeps : JobSteps P) (casing : Casing)
    (range : List (String × DtoDataset) → List (String × DtoDataset))
    (megabyte : api.Quantity) where
  open api use {Quantity, Float}
  open keeps use {steps, placed, run_as, named}

  apply_group_volumes_keeps :
      {F : Type 0} (launch_group : String) (groups : List (UserGroup F)) (dir : String)
      (spawner : Spawner Quantity)
      → P spawner
      → P (apply_group_volumes casing launch_group groups dir spawner)
  unfolding apply_group_volumes
  apply_group_volumes_keeps launch_group [] dir spawner h = h
  apply_group_volumes_keeps launch_group (group ∷ groups) dir spawner h =
      apply_group_volumes_keeps launch_group groups dir _
        (apply_volume_for_group_keeps P steps casing launch_group group dir spawner h)

  pub job_volumes_keeps :
      (user : DtoUser Float) (group_name dir : String) (options : SpawnerOptions Quantity)
      (spawner : Spawner Quantity)
      → P spawner
      → P (job_volumes casing user group_name dir options spawner)
  unfolding job_volumes
  job_volumes_keeps user group_name dir options spawner h =
      let grouped = apply_group_volumes_keeps group_name user.groups dir spawner h in
      if_keeps P options.phfs_enabled _ _
        (apply_volume_for_phfs_keeps P steps casing group_name options.phfs_pvc dir _ grouped)
        grouped

  apply_datasets_keeps :
      {F : Type 0} (groups : List (UserGroup F)) (group_name dir : String)
      (spawner : Spawner Quantity)
      → P spawner
      → P (apply_datasets range casing megabyte groups group_name dir spawner)
  unfolding apply_datasets
  apply_datasets_keeps groups group_name dir spawner h =
      apply_volume_for_dataset_dir_keeps P steps casing megabyte dir _
        (apply_each_keeps P steps casing (granted_datasets range groups group_name) spawner h)

  positive_env_keeps :
      (name : String) (show : ℤ → String) (limit : ℤ) (spawner : Spawner Quantity)
      → P spawner
      → P (positive_env name show limit spawner)
  positive_env_keeps name show limit spawner h =
      if_keeps P _ (add_env _ spawner) spawner (steps.extended _ spawner h) h

  apply_job_artifact_keeps :
      (show : ℤ → String) (size files seconds : ℤ) (spawner : Spawner Quantity)
      → P spawner
      → P (apply_job_artifact show size files seconds spawner)
  unfolding apply_job_artifact
  apply_job_artifact_keeps show size files seconds spawner h = steps.extended _ _ (
      positive_env_keeps "PHJOB_ARTIFACT_LIMIT_FILES" show files _ (
        positive_env_keeps "PHJOB_ARTIFACT_LIMIT_SIZE_MB" show size _ (steps.extended _ spawner h)))

  pub job_rest_keeps :
      (show : ℤ → String) (user : DtoUser Float) (group_name dir : String)
      (options : SpawnerOptions Quantity) (spawner : Spawner Quantity)
      → P spawner
      → P (job_rest casing range megabyte show user group_name dir options spawner)
  unfolding job_rest apply_grant_sudo apply_scripts apply_user_and_group_env apply_empty_dir_volume
  job_rest_keeps show user group_name dir options spawner h =
      let with_datasets =
        apply_datasets_keeps user.groups group_name dir _
          (placed dir _ (steps.mounted _ _ spawner h)) in
      let scripted =
        steps.mounted (config_map "primehub-controller-job-scripts" (some 511))
          (at_path "/scripts" "scripts") _ (steps.extended _ _ with_datasets) in
      named "main" _ (
        steps.extended _ _ (
          run_as _ _ (
            if_keeps P (options.artifact_enabled && options.phfs_enabled) _ _
              (apply_job_artifact_keeps show options.artifact_limit_size_mb
                options.artifact_limit_files options.artifact_retention_seconds _ scripted)
              scripted)))
