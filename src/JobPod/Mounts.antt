-- ===== src/JobPod/Mounts.antt =====
-- What the containers of the pod of a job mount.
use primehub_controller.Prelude.{
  String, Option, none, some, List, Result, ok, err, Error, ℤ, ◌≡◌, refl, ◌⊎◌, inl, inr,
  ok_injective, bind-ok, subst,
}
use mathlib.Core.Option
use primehub_controller.GoText.{Casing}
use primehub_controller.Numeric.{Numeric}
use primehub_controller.Escapism.{Unicode}
use primehub_controller.Graphql.{DtoUser, DtoDataset}
use primehub_controller.PhJob.{PhJob}
use primehub_controller.Spawn.{Spawner}
use primehub_controller.Spawn.Resources.{apply_node_selector, apply_tolerations, with_command}
use primehub_controller.Spawn.Build.{PodSpec, build_pod_spec}
use primehub_controller.Spawn.Mounts.{IsClosed, IsReady}
use primehub_controller.Spawn.Closed.{build_pod_spec-IsClosed}
use primehub_controller.Spawn.Spawners.{new_spawner_for_job-IsReady}
use primehub_controller.Deployment.ModelVolumes.{Mlflow}
use primehub_controller.JobPod.Additions.{with_shared_memory, with_job_env, PodSettings}
use primehub_controller.JobPod.Build.{
  pod_labels, BuiltPod, PodAnswers, spawner_options, no_pod_spec, job_spawner, job_pod_spec,
  referenced, from_spawner, from_user, build_pod,
}
use primehub_controller.JobPod.Standing.{
  IsStanding, with_job_env-Stands, with_shared_memory-IsStanding,
  attach_monitoring_agent-IsStanding,
}

module _ ⦃api : Numeric⦄ (casing : Casing)
    (range : List (String × DtoDataset) → List (String × DtoDataset)) (megabyte : api.Quantity)
    (show : ℤ → String) (settings : PodSettings api.Quantity) where
  open api use {Quantity, Float}

  job_spawner-IsReady :
      (job : PhJob) (user : DtoUser Float) (spawner : Spawner Quantity)
      → job_spawner casing range megabyte show settings job user ≡ ok spawner
      → IsReady spawner
  unfolding job_spawner with_command apply_tolerations apply_node_selector IsReady
  job_spawner-IsReady job user spawner e =
      let (base, made, finished) = bind-ok _ _ spawner e in
      subst IsReady (ok_injective finished) (
        new_spawner_for_job-IsReady casing range megabyte show user job.spec.group_name
          job.spec.instance_type job.spec.image (spawner_options settings) base made)

  finished-IsStanding :
      (job : PhJob) (time_zone : Result String) (groups : List (String × Option Mlflow))
      (attached : Option (PodSpec Quantity))
      → IsStanding attached
      → IsStanding (elim attached [
        | none ↦ none
        | some spec ↦ with_shared_memory (with_job_env job time_zone groups spec)
      ])
  finished-IsStanding job time_zone groups none h = h
  finished-IsStanding job time_zone groups (some spec) h =
      with_shared_memory-IsStanding _ (with_job_env-Stands job time_zone groups spec h)

  job_pod_spec-IsStanding :
      (job : PhJob) (time_zone : Result String) (groups : List (String × Option Mlflow))
      (spawner : Spawner Quantity)
      → IsReady spawner
      → IsStanding (job_pod_spec casing range megabyte show settings job time_zone groups spawner)
  unfolding job_pod_spec build_pod_spec
  job_pod_spec-IsStanding job time_zone groups spawner h =
      finished-IsStanding job time_zone groups _ (
        attach_monitoring_agent-IsStanding settings (build_pod_spec spawner no_pod_spec)
          (build_pod_spec-IsClosed spawner no_pod_spec h (tt, tt), tt))

  module _ (tables : Unicode) (marshal_map : List (String × String) → String)
      (answers : PodAnswers Float) (job : PhJob) where
    -- The call of buildPod that fails with an error.
    abbrev pub Refuses : Error → Type 0
    Refuses e =
        (answers.fetched ≡ err e)
        ⊎ ((user : DtoUser Float) × (groups : List (String × Option Mlflow)) × (answers.fetched
              ≡ ok (user, groups))
            × (job_spawner casing range megabyte show settings job user ≡ err e))
        ⊎ (answers.set_reference_error ≡ some e)

    abbrev pub AreMounted : Option (Result (BuiltPod Quantity)) → Type 0
    AreMounted none = ⊥
    AreMounted (some (err e)) = Refuses e
    AreMounted (some (ok pod)) =
        IsClosed pod.spec × (pod.key ≡ job.key) × (pod.labels ≡ pod_labels tables job)

    referenced-AreMounted :
        (e : Option Error) (spec : Option (PodSpec Quantity))
        → answers.set_reference_error ≡ e
        → IsStanding spec
        → AreMounted (
            Option.map
              (referenced casing range megabyte show settings tables marshal_map answers job e)
              spec)
    referenced-AreMounted e none same h = h
    referenced-AreMounted none (some spec) same h = (h.0, refl, refl)
    referenced-AreMounted (some e) (some spec) same h = inr (inr same)

    from_spawner-AreMounted :
        (user : DtoUser Float) (groups : List (String × Option Mlflow))
        (r : Result (Spawner Quantity))
        → answers.fetched ≡ ok (user, groups)
        → job_spawner casing range megabyte show settings job user ≡ r
        → AreMounted (
            from_spawner casing range megabyte show settings tables marshal_map answers job groups
              r)
    from_spawner-AreMounted user groups (err e) known made = inr (inl (user, groups, known, made))
    from_spawner-AreMounted user groups (ok spawner) known made = referenced-AreMounted _ _ refl (
        job_pod_spec-IsStanding job answers.time_zone groups spawner
          (job_spawner-IsReady job user spawner made))

    from_user-AreMounted :
        (r : Result (DtoUser Float × List (String × Option Mlflow)))
        → answers.fetched ≡ r
        → AreMounted
            (from_user casing range megabyte show settings tables marshal_map answers job r)
    from_user-AreMounted (err e) known = inl known
    from_user-AreMounted (ok (user, groups)) known =
        from_spawner-AreMounted user groups _ known refl

    -- buildPod never panics. A pod that it returns has the name of the job and the labels of its group and
    -- its user, and each container and init container of it mounts only volumes of the pod, with the agent
    -- and the shared memory. An error that it returns is that of FetchByUserId, of the spawner or of
    -- SetControllerReference.
    pub build_pod-AreMounted :
        AreMounted (build_pod casing range megabyte show settings tables marshal_map answers job)
    unfolding build_pod
    build_pod-AreMounted = from_user-AreMounted answers.fetched refl
