-- ===== src/JobPod/Memory.antt =====
-- The memory limit of the pod of a job next to what the admission counts for its instance type.
use text.Mathlib.Text.{◌==◌}
use primehub_controller.Prelude.{
  String, Bool-cases, Option, none, some, List, [], ◌∷◌, ok, ℤ, false, ◌≡◌, refl, ap, sym, ◌∙◌, inl,
  inr, subst, bind-ok, ok_injective, lookup, put, lookup-put_other, ◌||◌, if◌then◌else◌,
}
use primehub_controller.GoText.{Casing, is_empty}
use primehub_controller.Numeric.{Numeric, ResourceList}
use primehub_controller.Escapism.{Unicode}
use primehub_controller.Graphql.{DtoUser, DtoDataset, UserGroup, InstanceType}
use primehub_controller.Quota.{Quota, DtoInstanceType, instance_type_requested_quota}
use primehub_controller.PhJob.{PhJob}
use primehub_controller.Spawn.{Spawner, SpawnerOptions, new_spawner}
use primehub_controller.Spawn.Resources.{
  find_group, find_instance_type, convert_memory_unit, apply_resource_for_instance_type,
  container_limits, gpu_limits, apply_image_for_image_spec, is_gpu, apply_tolerations,
  apply_node_selector, with_command,
}
use primehub_controller.Spawn.Memory.{or_before, apply_resource-requested_quota}
use primehub_controller.Spawn.Build.{build_container}
use primehub_controller.Spawn.Constructors.{
  group_or_everyone, types_of, working_dir_of, job_volumes, new_spawner_for_job,
}
use primehub_controller.Spawn.JobSteps.{JobSteps, job_rest_keeps, job_volumes_keeps}
use primehub_controller.Spawn.Spawners.{new_spawner_for_job-parts}
use primehub_controller.Spawn.Volumes.{mount, add_symlink, add_env}
use primehub_controller.Deployment.ModelVolumes.{Mlflow}
use primehub_controller.JobPod.Build.{BuiltPod, PodAnswers, spawner_options, job_spawner, build_pod}
use primehub_controller.JobPod.Additions.{PodSettings}
use primehub_controller.JobPod.Limits.{limits_of, build_pod-HasSpawner}

module _ ⦃api : Numeric⦄ where
  open api use {Quantity, Float}

  -- A quantity that is set in a list of resources, where zero is left out.
  abbrev pub shown : Quantity → Option Quantity
  shown quantity = if api.is_zero quantity then none else some quantity

  abbrev pub shown_option : Option Quantity → Option Quantity
  shown_option none = none
  shown_option (some quantity) = shown quantity

  container_limits-memory :
      (spawner : Spawner Quantity)
      → lookup "memory" (container_limits spawner) ≡ shown spawner.limits_memory
  unfolding container_limits lookup put
  container_limits-memory spawner = elim (Bool-cases (api.is_zero spawner.limits_cpu)) [
    | inl no_cpu ↦ elim (Bool-cases (api.is_zero spawner.limits_memory)) [
      | inl unset ↦ rw (no_cpu, unset) refl
      | inr set ↦ rw (no_cpu, set) refl
    ]
    | inr cpu ↦ elim (Bool-cases (api.is_zero spawner.limits_memory)) [
      | inl unset ↦ rw (cpu, unset) refl
      | inr set ↦ rw (cpu, set) refl
    ]
  ]

  build_container-memory :
      (spawner : Spawner Quantity)
      → (spawner.gpu_resource_name == "memory") ≡ false
      → lookup "memory" (build_container spawner none).limits ≡ shown spawner.limits_memory
  unfolding build_container gpu_limits
  build_container-memory spawner other =
      elim (Bool-cases (api.is_zero spawner.limits_gpu || is_empty spawner.gpu_resource_name)) [
        | inl without ↦ rw without (container_limits-memory spawner)
        | inr with_gpu ↦ rw with_gpu (
            lookup-put_other "memory" spawner.gpu_resource_name spawner.limits_gpu
              (container_limits spawner) other
            ∙ container_limits-memory spawner)
      ]

  -- The memory limit and the name of the GPU of a spawner.
  abbrev HasMemory : Quantity → String → Spawner Quantity → Type 0
  HasMemory memory gpu spawner =
      (spawner.limits_memory ≡ memory) × (spawner.gpu_resource_name ≡ gpu)

  HasMemory-JobSteps : (memory : Quantity) (gpu : String) → JobSteps (HasMemory memory gpu)
  unfolding mount add_symlink add_env
  HasMemory-JobSteps memory gpu = record {
    steps = record {
      mounted = λ source m spawner h. h;
      linked = λ line spawner h. h;
      extended = λ variables spawner h. h;
    };
    placed = λ dir spawner h. h;
    run_as = λ user spawner h. h;
    named = λ name spawner h. h;
  }

  shown-or_before :
      (memory : Option Quantity) → shown (or_before api.zero_quantity memory) ≡ shown_option memory
  shown-or_before none = rw ((api.is_zero_iff api.zero_quantity).1 api.nanos-zero_quantity) refl
  shown-or_before (some quantity) = refl

  gpu_name-other :
      (spec : DtoInstanceType Float) (spawner : Spawner Quantity)
      → (spec.gpu_resource_name == "memory") ≡ false
      → spawner.gpu_resource_name ≡ ""
      → ((apply_resource_for_instance_type spec spawner).gpu_resource_name == "memory") ≡ false
  unfolding apply_resource_for_instance_type apply_tolerations apply_node_selector
  gpu_name-other spec spawner other unset = elim (Bool-cases (is_empty spec.gpu_resource_name)) [
    | inl empty ↦ rw empty (rw unset refl)
    | inr given ↦ rw given other
  ]

  module _ (casing : Casing) (range : List (String × DtoDataset) → List (String × DtoDataset))
      (megabyte : Quantity) (show : ℤ → String) where
    -- The memory limit of the spawner of a job, where the quota of its instance type converts and the
    -- unit of the memory is kept.
    new_spawner_for_job-memory :
        (user : DtoUser Float) (group_name type_name image_name : String)
        (options : SpawnerOptions Quantity) (spawner : Spawner Quantity)
        (found : UserGroup Float × Option (UserGroup Float)) (instance_type : InstanceType Float)
        (requested : Quota)
        → new_spawner_for_job casing range megabyte show user group_name type_name image_name
            options
          ≡ ok spawner
        → find_group user.groups (group_or_everyone group_name) ≡ ok found
        → find_instance_type found.0.instance_types (types_of found.1) type_name ≡ ok instance_type
        → instance_type_requested_quota instance_type.spec ≡ ok requested
        → convert_memory_unit instance_type.spec.limits_memory ≡ instance_type.spec.limits_memory
        → (instance_type.spec.gpu_resource_name == "memory") ≡ false
        → (spawner.limits_memory ≡ or_before api.zero_quantity requested.memory)
          × ((spawner.gpu_resource_name == "memory") ≡ false)
    unfolding new_spawner apply_image_for_image_spec
    new_spawner_for_job-memory user group_name type_name image_name options spawner found
          instance_type requested e of_group of_type of_quota same other =
        let named = group_or_everyone group_name in
        let dir = working_dir_of options in
        let (found', made_type, image, in_group, in_types, _, built) =
          new_spawner_for_job-parts casing range megabyte show user group_name type_name image_name
            options spawner e in
        let same_found = ok_injective (sym in_group ∙ of_group) in
        let same_type = ok_injective (
          sym in_types
          ∙ ap (λ f. find_instance_type f.0.instance_types (types_of f.1) type_name) same_found
          ∙ of_type) in
        let volumes = job_volumes casing user named dir options new_spawner in
        let fresh =
          job_volumes_keeps (HasMemory api.zero_quantity "")
            (HasMemory-JobSteps api.zero_quantity "") casing range megabyte user named dir options
            new_spawner (refl, refl) in
        let sized = apply_resource_for_instance_type made_type.spec volumes in
        let kept =
          job_rest_keeps (HasMemory sized.limits_memory sized.gpu_resource_name)
            (HasMemory-JobSteps sized.limits_memory sized.gpu_resource_name) casing range megabyte
            show user named dir options
            (apply_image_for_image_spec image (is_gpu made_type.spec) sized) (refl, refl) in
        let memory =
          apply_resource-requested_quota instance_type.spec volumes requested of_quota same in
        let ends = subst (HasMemory sized.limits_memory sized.gpu_resource_name) built kept in
        let of_type = λ (t : InstanceType Float). apply_resource_for_instance_type t.spec volumes in
        (
          ends.0
              ∙ ap (λ t. (of_type t).limits_memory) same_type
              ∙ memory
              ∙ ap (λ q. or_before q requested.memory) fresh.0,
          subst (λ gpu. (gpu == "memory") ≡ false)
              (sym (ends.1 ∙ ap (λ t. (of_type t).gpu_resource_name) same_type))
              (gpu_name-other instance_type.spec volumes other fresh.1),
        )

    module _ (settings : PodSettings Quantity) (tables : Unicode)
        (marshal_map : List (String × String) → String) (answers : PodAnswers Float)
        (job : PhJob) where
      -- The memory limit that the main container of the pod of a job gets is the amount that the
      -- admission takes from the quotas for the instance type, where that is found in the group or among
      -- those of everyone, its quota converts, the unit of its memory is not one of G, M and K, and its
      -- GPU is not called memory. A limit of zero is left out of the pod.
      pub build_pod-memory :
          (user : DtoUser Float) (groups : List (String × Option Mlflow)) (pod : BuiltPod Quantity)
          (found : UserGroup Float × Option (UserGroup Float)) (instance_type : InstanceType Float)
          (requested : Quota)
          → answers.fetched ≡ ok (user, groups)
          → build_pod casing range megabyte show settings tables marshal_map answers job
            ≡ some (ok pod)
          → find_group user.groups (group_or_everyone job.spec.group_name) ≡ ok found
          → find_instance_type found.0.instance_types (types_of found.1) job.spec.instance_type
            ≡ ok instance_type
          → instance_type_requested_quota instance_type.spec ≡ ok requested
          → convert_memory_unit instance_type.spec.limits_memory ≡ instance_type.spec.limits_memory
          → (instance_type.spec.gpu_resource_name == "memory") ≡ false
          → (limits : ResourceList Quantity) × (limits_of pod.spec.containers ≡ limits ∷ [])
            × (lookup "memory" limits ≡ shown_option requested.memory)
      unfolding job_spawner with_command apply_tolerations apply_node_selector
      build_pod-memory user groups pod found instance_type requested known e of_group of_type
            of_quota same other =
          let (spawner, made, limited) =
            build_pod-HasSpawner casing range megabyte show settings tables marshal_map answers job
              user groups pod known e in
          let (base, from_base, finished) = bind-ok _ _ spawner made in
          let (memory, gpu) =
            new_spawner_for_job-memory user job.spec.group_name job.spec.instance_type
              job.spec.image (spawner_options settings) base found instance_type requested from_base
              of_group of_type of_quota same other in
          let ended = ok_injective finished in
          let is_memory = ap (λ s. s.limits_memory) (sym ended) ∙ memory in
          let is_gpu = ap (λ s. s.gpu_resource_name) (sym ended) in
          (
            (build_container spawner none).limits,
            limited,
            build_container-memory spawner
                  (subst (λ name. (name == "memory") ≡ false) (sym is_gpu) gpu)
                ∙ ap shown is_memory
                ∙ shown-or_before requested.memory,
          )
