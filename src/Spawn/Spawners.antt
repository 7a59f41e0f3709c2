-- ===== src/Spawn/Spawners.antt =====
-- The spawners that the constructors return mount only volumes that they have.
use primehub_controller.Numeric.{Numeric}
use primehub_controller.Spawn.Mounts.{IsReady-Steps, IsClosed, IsReady}
use primehub_controller.GoText.{Casing}
use primehub_controller.Spawn.{SpawnerOptions, Spawner, new_spawner}
use primehub_controller.Spawn.Resources.{
  find_image, is_gpu, find_instance_type, find_group, apply_image_for_image_spec,
  apply_node_selector, apply_tolerations, apply_resource_for_instance_type,
}
use primehub_controller.Prelude.{
  ok_injective, bind-ok, subst, Option, Bool, ok, ◌≡◌, ℤ, refl, String, List,
}
use primehub_controller.Graphql.{InstanceType, DtoImage, DtoUser, UserGroup, DtoDataset}
use primehub_controller.Quota.{DtoInstanceType}
use primehub_controller.Spawn.Constructors.{
  images_of, types_of, working_dir_of, group_or_everyone, new_spawner_for_job, job_rest,
  job_volumes,
}
use primehub_controller.Spawn.Build.{build_pod_spec, PodSpec}
use primehub_controller.Spawn.JobSteps.{JobSteps, job_rest_keeps, job_volumes_keeps}
use primehub_controller.Spawn.Closed.{build_pod_spec-IsClosed}

module _ ⦃api : Numeric⦄ where
  open api use {Quantity, Float}

  pub new_spawner-IsReady : IsReady new_spawner
  unfolding IsReady new_spawner
  new_spawner-IsReady = (tt, refl, refl)

  pub resources-IsReady :
      (spec : DtoInstanceType Float) (spawner : Spawner Quantity)
      → IsReady spawner
      → IsReady (apply_resource_for_instance_type spec spawner)
  unfolding IsReady apply_resource_for_instance_type apply_tolerations apply_node_selector
  resources-IsReady spec spawner h = h

  IsReady-JobSteps : JobSteps (IsReady {Q = Quantity})
  unfolding IsReady
  IsReady-JobSteps = record {
    steps = IsReady-Steps;
    placed = λ dir spawner h. h;
    run_as = λ user spawner h. h;
    named = λ name spawner h. h;
  }

  module _ (casing : Casing) (range : List (String × DtoDataset) → List (String × DtoDataset))
      (megabyte : Quantity) where
    -- What a spawner for a job is made of.
    pub new_spawner_for_job-parts :
        (show : ℤ → String) (user : DtoUser Float) (group_name type_name image_name : String)
        (options : SpawnerOptions Quantity) (spawner : Spawner Quantity)
        → new_spawner_for_job casing range megabyte show user group_name type_name image_name
            options
          ≡ ok spawner
        → (found : UserGroup Float × Option (UserGroup Float)) × (instance_type : InstanceType
            Float)
          × (image : DtoImage) × (find_group user.groups (group_or_everyone group_name) ≡ ok found)
          × (find_instance_type found.0.instance_types (types_of found.1) type_name
              ≡ ok instance_type)
          × (find_image found.0.images (images_of found.1) image_name ≡ ok image)
          × (job_rest casing range megabyte show user
                (group_or_everyone group_name)
                (working_dir_of options)
                options
                (apply_image_for_image_spec image (is_gpu instance_type.spec) (
                  apply_resource_for_instance_type instance_type.spec (
                    job_volumes casing user
                      (group_or_everyone group_name)
                      (working_dir_of options)
                      options
                      new_spawner)))
              ≡ spawner)
    unfolding new_spawner_for_job
    new_spawner_for_job-parts show user group_name type_name image_name options spawner e =
        let (found, in_group, after_group) = bind-ok _ _ spawner e in
        let (instance_type, of_type, after_type) = bind-ok _ _ spawner after_group in
        let (image, of_image, after_image) = bind-ok _ _ spawner after_type in
        (found, instance_type, image, in_group, of_type, of_image, ok_injective after_image)

    apply_image-IsReady :
        (image : DtoImage) (gpu : Bool) (spawner : Spawner Quantity)
        → IsReady spawner
        → IsReady (apply_image_for_image_spec image gpu spawner)
    unfolding apply_image_for_image_spec IsReady
    apply_image-IsReady image gpu spawner h = h

    -- Where NewSpawnerForJob succeeds, its spawner mounts only its volumes.
    pub new_spawner_for_job-IsReady :
        (show : ℤ → String) (user : DtoUser Float) (group_name type_name image_name : String)
        (options : SpawnerOptions Quantity) (spawner : Spawner Quantity)
        → new_spawner_for_job casing range megabyte show user group_name type_name image_name
            options
          ≡ ok spawner
        → IsReady spawner
    new_spawner_for_job-IsReady show user group_name type_name image_name options spawner e =
        let parts =
          new_spawner_for_job-parts show user group_name type_name image_name options spawner e in
        let named = group_or_everyone group_name in
        let dir = working_dir_of options in
        subst IsReady parts.6 (
          job_rest_keeps IsReady IsReady-JobSteps casing range megabyte show user named dir options
            _
            (apply_image-IsReady parts.2 (is_gpu parts.1.spec) _ (
              resources-IsReady parts.1.spec _ (
                job_volumes_keeps IsReady IsReady-JobSteps casing range megabyte user named dir
                  options new_spawner new_spawner-IsReady))))

    -- Where NewSpawnerForJob succeeds, its pod, put on a pod whose containers mount only its volumes,
    -- is such a pod.
    pub new_spawner_for_job-IsClosed :
        (show : ℤ → String) (user : DtoUser Float) (group_name type_name image_name : String)
        (options : SpawnerOptions Quantity) (spawner : Spawner Quantity) (pod : PodSpec Quantity)
        → new_spawner_for_job casing range megabyte show user group_name type_name image_name
            options
          ≡ ok spawner
        → IsClosed pod
        → IsClosed (build_pod_spec spawner pod)
    new_spawner_for_job-IsClosed show user group_name type_name image_name options spawner pod e
          closed =
        build_pod_spec-IsClosed spawner pod
          (new_spawner_for_job-IsReady show user group_name type_name image_name options spawner e)
          closed
