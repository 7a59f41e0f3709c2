-- ===== src/Spawn/Constructors.antt =====
-- pkg/graphql/spawn.go: the spawners for a job, for a model deployment and for an application.
use Prim.Native.String.{◌++◌ as ◌+++◌}
use primehub_controller.Prelude.{
  false, true, ok, ◌>>=◌, pos, ◌&&◌, none, not, some, Result, ℤ, [], ◌∷◌, if◌then◌else◌,
  if◌then◌else◌, List, Bool, Option, String,
}
use primehub_controller.GoText.{trim_space, is_empty, Casing}
use primehub_controller.Numeric.{Numeric}
use primehub_controller.Graphql.{DtoUser, DtoDataset, DtoImage, InstanceType, UserGroup}
use primehub_controller.Spawn.{Container, new_spawner, literal, EnvVar, SpawnerOptions, Spawner}
use primehub_controller.Spawn.Volumes.{
  volume_name, apply_job_artifact, apply_grant_sudo, apply_user_and_group_env,
  apply_volume_for_app_root, apply_scripts, apply_empty_dir_volume, apply_volume_for_phfs,
  apply_volume_for_group,
}
use primehub_controller.Quota.{DtoInstanceType}
use primehub_controller.Spawn.Build.{PodSpec}
use primehub_controller.Spawn.Granted.{merge_dataset, apply_datasets}
use primehub_controller.Spawn.Resources.{
  is_gpu, apply_image_for_image_spec, find_image, find_instance_type, find_group,
  apply_resource_for_instance_type, apply_node_selector, apply_tolerations,
}
use primehub_controller.Spawn.Datasets.{apply_each, apply_volume_for_dataset_dir}

abbrev pub group_or_everyone : String → String
group_or_everyone group_name = if is_empty group_name then "everyone" else group_name

abbrev pub types_of : {F : Type 0} → Option (UserGroup F) → List (InstanceType F)
types_of none = []
types_of (some group) = group.instance_types

abbrev pub images_of : {F : Type 0} → Option (UserGroup F) → List DtoImage
images_of none = []
images_of (some group) = group.images

-- The loop over the groups of the user.
unfoldable pub apply_group_volumes :
    {F Q : Type 0} → Casing → String → List (UserGroup F) → String → Spawner Q → Spawner Q
apply_group_volumes casing launch_group [] working_dir spawner = spawner
apply_group_volumes casing launch_group (group ∷ groups) working_dir spawner =
    apply_group_volumes casing launch_group groups working_dir
      (apply_volume_for_group casing launch_group group working_dir spawner)

abbrev pub when : {Q : Type 0} → Bool → (Spawner Q → Spawner Q) → Spawner Q → Spawner Q
when b f spawner = if b then f spawner else spawner

abbrev pub working_dir_of : {Q : Type 0} → SpawnerOptions Q → String
working_dir_of options =
    if is_empty options.working_dir then "/home/jovyan" else options.working_dir

module _ ⦃api : Numeric⦄ where
  open api use {Quantity, Float}

  -- func NewSpawnerForModelDeployment
  unfoldable pub new_spawner_for_model_deployment :
      DtoUser Float → String → String → String → Result (Spawner Quantity)
  new_spawner_for_model_deployment user group_name type_name image_url = do
    found ← find_group user.groups (group_or_everyone group_name)
    instance_type ← find_instance_type found.0.instance_types (types_of found.1) type_name
    let sized = apply_resource_for_instance_type instance_type.spec new_spawner
    ok (record sized {
      image = trim_space image_url;
      container = record sized.container { name = "model" };
    })

module _ ⦃api : Numeric⦄ (casing : Casing) where
  open api use {Quantity, Float}

  -- The volumes of a job, in the order of NewSpawnerForJob.
  unfoldable pub job_volumes :
      DtoUser Float
      → String
      → String
      → SpawnerOptions Quantity
      → Spawner Quantity
      → Spawner Quantity
  job_volumes user group_name working_dir options spawner =
      when options.phfs_enabled
        (apply_volume_for_phfs casing group_name options.phfs_pvc working_dir)
        (apply_group_volumes casing group_name user.groups working_dir spawner)

  -- The root of an application in its pod.
  unfoldable pub prime_hub_app_root : UserGroup Float → String → String
  prime_hub_app_root group app_id =
      if group.enabled_shared_volume
      then "/project/" +++ volume_name casing group.name +++ "/phapplications/" +++ app_id
      else "/phapplications/" +++ app_id

-- `range` is the order of a `range` over a map, `show` is fmt.Sprint of a number, and `megabyte` and
-- `five_gibibytes` are the quantities 1M and 5Gi, which resource.MustParse reads.
module _ ⦃api : Numeric⦄ (casing : Casing)
    (range : List (String × DtoDataset) → List (String × DtoDataset))
    (megabyte : api.Quantity) where
  open api use {Quantity, Float}

  -- What follows the image.
  unfoldable pub job_rest :
      (ℤ → String)
      → DtoUser Float
      → String
      → String
      → SpawnerOptions Quantity
      → Spawner Quantity
      → Spawner Quantity
  job_rest show user group_name working_dir options spawner =
      let sized =
        apply_empty_dir_volume "workingdir" working_dir options.working_dir_size spawner in
      let with_datasets =
        apply_datasets range casing megabyte user.groups group_name working_dir
          (record sized { working_dir = working_dir }) in
      let scripted =
        apply_scripts "primehub-controller-job-scripts"
          (apply_user_and_group_env user.username group_name with_datasets) in
      let finished = apply_grant_sudo options.grant_sudo (
        when (options.artifact_enabled && options.phfs_enabled)
          (apply_job_artifact show options.artifact_limit_size_mb options.artifact_limit_files
            options.artifact_retention_seconds)
          scripted) in
      record finished { container = record finished.container { name = "main" } }

  -- func NewSpawnerForJob
  unfoldable pub new_spawner_for_job :
      (ℤ → String)
      → DtoUser Float
      → String
      → String
      → String
      → SpawnerOptions Quantity
      → Result (Spawner Quantity)
  new_spawner_for_job show user group_name type_name image_name options =
      let group_name = group_or_everyone group_name in
      let working_dir = working_dir_of options in
      do
        found ← find_group user.groups group_name
        instance_type ← find_instance_type found.0.instance_types (types_of found.1) type_name
        image ← find_image found.0.images (images_of found.1) image_name
        ok (
            job_rest show user group_name working_dir options (
              apply_image_for_image_spec image (is_gpu instance_type.spec) (
                apply_resource_for_instance_type instance_type.spec
                  (job_volumes casing user group_name working_dir options new_spawner))))

  -- The group volume of an application, or a directory of its own, each at the root that is asked
  -- for as well.
  unfoldable pub apply_app_root :
      Quantity
      → String
      → UserGroup Float
      → String
      → String
      → Bool
      → Spawner Quantity
      → Spawner Quantity
  apply_app_root five_gibibytes app_id group app_root root true spawner =
      when (not (is_empty app_root))
        (apply_volume_for_app_root casing group.name app_root app_id "")
        (apply_volume_for_group casing group.name group "" spawner)
  apply_app_root five_gibibytes app_id group app_root root false spawner =
      when (not (is_empty app_root))
        (apply_volume_for_app_root casing group.name app_root app_id "primehub-app-root")
        (apply_empty_dir_volume "primehub-app-root" root five_gibibytes spawner)

  -- The volumes of an application, in the order of NewSpawnerForPhApplication.
  unfoldable pub app_volumes :
      Quantity
      → String
      → UserGroup Float
      → List DtoDataset
      → String
      → SpawnerOptions Quantity
      → Spawner Quantity
      → Spawner Quantity
  app_volumes five_gibibytes app_id group global_datasets app_root options spawner =
      let root = prime_hub_app_root casing group app_id in
      apply_volume_for_dataset_dir casing megabyte root (
        apply_each casing (merge_dataset range group.datasets global_datasets) (
          when options.phfs_enabled (apply_volume_for_phfs casing group.name options.phfs_pvc root)
            (apply_app_root five_gibibytes app_id group app_root root group.enabled_shared_volume
              spawner)))

  abbrev variable : String → String → EnvVar
  variable name value = record { name = name; value = literal value }

  -- NewSpawnerForPhApplication for the first container of the application.
  unfoldable pub app_spawner :
      Quantity
      → String
      → String
      → UserGroup Float
      → DtoInstanceType Float
      → List DtoDataset
      → Container Quantity
      → String
      → SpawnerOptions Quantity
      → Spawner Quantity
  app_spawner five_gibibytes app_id primehub_url group instance_type global_datasets container
        app_root options =
      let root = prime_hub_app_root casing group app_id in
      let sized = apply_tolerations instance_type.tolerations (
        apply_node_selector instance_type.node_selector (
          apply_resource_for_instance_type instance_type (
            app_volumes five_gibibytes app_id group global_datasets app_root options
              new_spawner))) in
      record sized {
        image = container.image;
        container = record sized.container {
          name = container.name;
          command = container.command;
          args = container.args;
        };
        init_container = record sized.init_container {
          name = "init-" +++ app_id;
          image = container.image;
          command = "sh" ∷ "-c" ∷ [];
          args = "mkdir -p ${PRIMEHUB_APP_ROOT}; chmod 777 ${PRIMEHUB_APP_ROOT};" ∷ [];
          run_as_user = some (pos 0);
        };
        prepend_env =
            variable "PRIMEHUB_APP_ID" app_id
            ∷ variable "PRIMEHUB_APP_ROOT" (if is_empty app_root then root else app_root)
            ∷ variable "PRIMEHUB_APP_BASE_URL" ("/console/apps/" +++ app_id)
            ∷ variable "PRIMEHUB_URL" primehub_url
            ∷ variable "PRIMEHUB_GROUP" group.name
            ∷ [];
      }

  -- func NewSpawnerForPhApplication; `none` is the panic of an index into no containers.
  unfoldable pub new_spawner_for_ph_application :
      Quantity
      → String
      → String
      → UserGroup Float
      → DtoInstanceType Float
      → List DtoDataset
      → PodSpec Quantity
      → String
      → SpawnerOptions Quantity
      → Option (Spawner Quantity)
  new_spawner_for_ph_application five_gibibytes app_id primehub_url group instance_type
        global_datasets spec app_root options =
      elim spec.containers [
        | [] ↦ none
        | container ∷ others ↦ some (
            app_spawner five_gibibytes app_id primehub_url group instance_type global_datasets
              container app_root options)
      ]
