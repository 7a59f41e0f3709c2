-- ===== src/JobPod/Limits.antt =====
-- The limits of the containers of the pod of a job are those of its spawner.
use mathlib.Core.Option
use mathlib.Core.Option.{some-injective}
use primehub_controller.Prelude.{
  String, Bool-cases, Option, none, some, List, [], ◌∷◌, Result, ok, err, Error, ℤ, ◌≡◌, refl, ap,
  sym, ◌∙◌, inl, inr, subst,
}
use primehub_controller.GoText.{Casing}
use primehub_controller.Numeric.{Numeric, ResourceList}
use primehub_controller.Escapism.{Unicode}
use primehub_controller.Graphql.{DtoUser, DtoDataset}
use primehub_controller.PhJob.{PhJob}
use primehub_controller.Spawn.{VolumeMount, EnvVar, Container, Spawner}
use primehub_controller.Spawn.Build.{PodSpec, build_pod_spec, build_container}
use primehub_controller.Deployment.ModelVolumes.{Mlflow}
use primehub_controller.JobPod.Additions.{
  mount_in_first, attach_monitoring_agent, append_env, with_time_zone, with_shared_memory,
  with_job_env, PodSettings,
}
use primehub_controller.JobPod.Build.{
  BuiltPod, PodAnswers, no_pod_spec, job_spawner, job_pod_spec, referenced, from_spawner, from_user,
  build_pod,
}

module _ {Q : Type 0} where
  -- The limits of each container, which the quota counts.
  abbrev pub limits_of : List (Container Q) → List (ResourceList Q)
  limits_of [] = []
  limits_of (container ∷ containers) = container.limits ∷ limits_of containers

  append_env-limits_of :
      (variables : List EnvVar) (containers : List (Container Q))
      → limits_of (append_env variables containers) ≡ limits_of containers
  unfolding append_env
  append_env-limits_of variables [] = refl
  append_env-limits_of variables (container ∷ containers) =
      ap (λ limits. container.limits ∷ limits) (append_env-limits_of variables containers)

  with_time_zone-limits_of :
      (time_zone : Result String) (containers : List (Container Q))
      → limits_of (with_time_zone time_zone containers) ≡ limits_of containers
  unfolding with_time_zone
  with_time_zone-limits_of (ok location) containers = append_env-limits_of _ containers
  with_time_zone-limits_of (err e) containers = refl

  -- A specification whose containers have some limits, unless the code has panicked.
  abbrev HaveLimits : List (ResourceList Q) → Option (PodSpec Q) → Type 0
  HaveLimits limits none = Unit
  HaveLimits limits (some spec) = limits_of spec.containers ≡ limits

  mounted-HaveLimits :
      (limits : List (ResourceList Q)) (m : VolumeMount) (containers : List (Container Q))
      (grow : List (Container Q) → PodSpec Q)
      → ((next : List (Container Q)) → (grow next).containers ≡ next)
      → limits_of containers ≡ limits
      → HaveLimits limits (Option.map grow (mount_in_first m containers))
  unfolding mount_in_first
  mounted-HaveLimits limits m [] grow grown h = tt
  mounted-HaveLimits limits m (first ∷ others) grow grown h = ap limits_of (grown _) ∙ h

  attach_monitoring_agent-HaveLimits :
      (limits : List (ResourceList Q)) (settings : PodSettings Q) (spec : PodSpec Q)
      → limits_of spec.containers ≡ limits
      → HaveLimits limits (attach_monitoring_agent settings spec)
  unfolding attach_monitoring_agent
  attach_monitoring_agent-HaveLimits limits settings spec h =
      elim (Bool-cases settings.artifact_enabled) [
        | inl on ↦
            rw (on, attach_monitoring_agent)
              (mounted-HaveLimits limits _ spec.containers _ (λ next. refl) h)
        | inr off ↦ rw (off, attach_monitoring_agent) h
      ]

  finished-HaveLimits :
      (limits : List (ResourceList Q)) (job : PhJob) (time_zone : Result String)
      (groups : List (String × Option Mlflow)) (attached : Option (PodSpec Q))
      → HaveLimits limits attached
      → HaveLimits limits (elim attached [
        | none ↦ none
        | some spec ↦ with_shared_memory (with_job_env job time_zone groups spec)
      ])
  unfolding with_shared_memory with_job_env
  finished-HaveLimits limits job time_zone groups none h = tt
  finished-HaveLimits limits job time_zone groups (some spec) h =
      mounted-HaveLimits limits _ _ _ (λ next. refl)
        (append_env-limits_of _ (with_time_zone time_zone spec.containers)
          ∙ with_time_zone-limits_of time_zone spec.containers
          ∙ h)

module _ ⦃api : Numeric⦄ (casing : Casing)
    (range : List (String × DtoDataset) → List (String × DtoDataset)) (megabyte : api.Quantity)
    (show : ℤ → String) (settings : PodSettings api.Quantity) (tables : Unicode)
    (marshal_map : List (String × String) → String) (answers : PodAnswers api.Float)
    (job : PhJob) where
  open api use {Quantity, Float}

  job_pod_spec-HaveLimits :
      (groups : List (String × Option Mlflow)) (spawner : Spawner Quantity)
      → HaveLimits
          ((build_container spawner none).limits ∷ [])
          (job_pod_spec casing range megabyte show settings job answers.time_zone groups spawner)
  unfolding job_pod_spec build_pod_spec
  job_pod_spec-HaveLimits groups spawner =
      finished-HaveLimits _ job answers.time_zone groups _
        (attach_monitoring_agent-HaveLimits _ settings (build_pod_spec spawner no_pod_spec) refl)

  -- A pod with the limits of a spawner for the job and the user.
  abbrev HasSpawner : DtoUser Float → Option (Result (BuiltPod Quantity)) → Type 0
  HasSpawner user none = Unit
  HasSpawner user (some (err e)) = Unit
  HasSpawner user (some (ok pod)) =
      (spawner : Spawner Quantity) × (job_spawner casing range megabyte show settings job user
        ≡ ok spawner)
      × (limits_of pod.spec.containers ≡ (build_container spawner none).limits ∷ [])

  referenced-HasSpawner :
      (user : DtoUser Float) (spawner : Spawner Quantity) (refused : Option Error)
      (spec : Option (PodSpec Quantity))
      → job_spawner casing range megabyte show settings job user ≡ ok spawner
      → HaveLimits ((build_container spawner none).limits ∷ []) spec
      → HasSpawner user (
          Option.map
            (referenced casing range megabyte show settings tables marshal_map answers job refused)
            spec)
  referenced-HasSpawner user spawner refused none made h = tt
  referenced-HasSpawner user spawner (some e) (some spec) made h = tt
  referenced-HasSpawner user spawner none (some spec) made h = (spawner, made, h)

  from_spawner-HasSpawner :
      (user : DtoUser Float) (groups : List (String × Option Mlflow))
      (made : Result (Spawner Quantity))
      → job_spawner casing range megabyte show settings job user ≡ made
      → HasSpawner user (
          from_spawner casing range megabyte show settings tables marshal_map answers job groups
            made)
  from_spawner-HasSpawner user groups (err e) same = tt
  from_spawner-HasSpawner user groups (ok spawner) same =
      referenced-HasSpawner user spawner answers.set_reference_error _ same
        (job_pod_spec-HaveLimits groups spawner)

  pub build_pod-HasSpawner :
      (user : DtoUser Float) (groups : List (String × Option Mlflow)) (pod : BuiltPod Quantity)
      → answers.fetched ≡ ok (user, groups)
      → build_pod casing range megabyte show settings tables marshal_map answers job ≡ some (ok pod)
      → HasSpawner user (some (ok pod))
  unfolding build_pod
  build_pod-HasSpawner user groups pod known e =
      subst (HasSpawner user)
        (sym (
            ap (from_user casing range megabyte show settings tables marshal_map answers job) known)
          ∙ e)
        (from_spawner-HasSpawner user groups _ refl)
