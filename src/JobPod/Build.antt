-- ===== src/JobPod/Build.antt =====
-- ee/controllers/phjob_controller.go: buildPod and attachMonitoringAgent. The restart and pull policies
-- and the owner, which are constants, and the affinity are not modelled.
use Prim.Native.String.{◌++◌ as ◌+++◌}
use mathlib.Core.Option
use primehub_controller.Prelude.{
  String, Option, none, some, List, [], ◌∷◌, Result, ok, err, Error, ◌>>=◌, ℤ, put,
}
use primehub_controller.GoText.{Casing}
use primehub_controller.Numeric.{Numeric}
use primehub_controller.Kube.{ObjectKey}
use primehub_controller.Escapism.{Unicode, escape_to_primehub_label}
use primehub_controller.Graphql.{DtoUser, DtoDataset}
use primehub_controller.PhJob.{PhJob}
use primehub_controller.Spawn.{Spawner, SpawnerOptions}
use primehub_controller.Spawn.Resources.{apply_node_selector, apply_tolerations, with_command}
use primehub_controller.Spawn.Build.{PodSpec, build_pod_spec}
use primehub_controller.Spawn.Constructors.{new_spawner_for_job}
use primehub_controller.Deployment.ModelVolumes.{Mlflow}
use primehub_controller.JobPod.Additions.{
  PodSettings, attach_monitoring_agent, with_job_env, with_shared_memory,
}

-- The pod: of corev1.Pod what buildPod sets.
pub record BuiltPod (Q : Type 0) : Type 0 where
  pub key : ObjectKey
  pub annotations : List (String × String)
  pub labels : List (String × String)
  pub spec : PodSpec Q

-- What buildPod is told: the user with the Mlflow settings of the groups, by FetchByUserId; the time
-- zone, by the cache; the annotations of the job; and the error of SetControllerReference.
pub record PodAnswers (F : Type 0) : Type 0 where
  pub fetched : Result (DtoUser F × List (String × Option Mlflow))
  pub time_zone : Result String
  pub annotations : List (String × String)
  pub set_reference_error : Option Error

-- graphql.SpawnerOptions of buildPod; the working directory is left empty.
unfoldable pub spawner_options : {Q : Type 0} → PodSettings Q → SpawnerOptions Q
spawner_options settings = record {
  working_dir = "";
  working_dir_size = settings.working_dir_size;
  phfs_enabled = settings.phfs_enabled;
  phfs_pvc = settings.phfs_pvc;
  artifact_enabled = settings.artifact_enabled;
  artifact_limit_size_mb = settings.artifact_limit_size_mb;
  artifact_limit_files = settings.artifact_limit_files;
  artifact_retention_seconds = settings.artifact_retention_seconds;
  grant_sudo = settings.grant_sudo;
}

-- corev1.PodSpec{}
abbrev pub no_pod_spec : {Q : Type 0} → PodSpec Q
no_pod_spec = record {
  volumes = [];
  containers = [];
  init_containers = [];
  image_pull_secrets = [];
  security_context = none;
  node_selector = [];
  tolerations = [];
}

-- func buildAnnotationsWithUsageMetadata; `marshal_map` is json.Marshal of a map of texts.
unfoldable pub build_annotations_with_usage_metadata :
    (List (String × String) → String) → PhJob → List (String × String) → List (String × String)
build_annotations_with_usage_metadata marshal_map job annotations =
    put "primehub.io/usage"
      (marshal_map (
        ("component", "job")
        ∷ ("component_name", job.key.name)
        ∷ ("instance_type", job.spec.instance_type)
        ∷ ("group", job.spec.group_name)
        ∷ ("user", job.spec.user_name)
        ∷ []))
      annotations

-- The labels of the pod.
unfoldable pub pod_labels : Unicode → PhJob → List (String × String)
pod_labels tables job =
    ("app", "primehub-job")
    ∷ ("primehub.io/group", escape_to_primehub_label tables job.spec.group_name)
    ∷ ("primehub.io/user", escape_to_primehub_label tables job.spec.user_name)
    ∷ []

module _ ⦃api : Numeric⦄ (casing : Casing)
    (range : List (String × DtoDataset) → List (String × DtoDataset)) (megabyte : api.Quantity)
    (show : ℤ → String) (settings : PodSettings api.Quantity) where
  open api use {Quantity, Float}

  -- The spawner of buildPod.
  unfoldable pub job_spawner : PhJob → DtoUser Float → Result (Spawner Quantity)
  job_spawner job user = do
    spawner ←
        new_spawner_for_job casing range megabyte show user job.spec.group_name
          job.spec.instance_type job.spec.image (spawner_options settings)
    ok (
        with_command ("/scripts/run-job.sh" ∷ ("sleep 1\n" +++ job.spec.command) ∷ []) (
          apply_tolerations settings.tolerations
            (apply_node_selector settings.node_selector spawner)))

  -- The specification of the pod from its spawner on.
  unfoldable pub job_pod_spec :
      PhJob
      → Result String
      → List (String × Option Mlflow)
      → Spawner Quantity
      → Option (PodSpec Quantity)
  job_pod_spec job time_zone groups spawner =
      elim (attach_monitoring_agent settings (build_pod_spec spawner no_pod_spec)) [
        | none ↦ none
        | some spec ↦ with_shared_memory (with_job_env job time_zone groups spec)
      ]

  module _ (tables : Unicode) (marshal_map : List (String × String) → String)
      (answers : PodAnswers Float) (job : PhJob) where
    abbrev pub referenced : Option Error → PodSpec Quantity → Result (BuiltPod Quantity)
    referenced (some e) spec = err e
    referenced none spec = ok (record {
      key = job.key;
      annotations = build_annotations_with_usage_metadata marshal_map job answers.annotations;
      labels = pod_labels tables job;
      spec = spec;
    })

    abbrev pub from_spawner :
        List (String × Option Mlflow)
        → Result (Spawner Quantity)
        → Option (Result (BuiltPod Quantity))
    from_spawner groups (err e) = some (err e)
    from_spawner groups (ok spawner) =
        Option.map (referenced answers.set_reference_error)
          (job_pod_spec job answers.time_zone groups spawner)

    abbrev pub from_user :
        Result (DtoUser Float × List (String × Option Mlflow)) → Option (Result (BuiltPod Quantity))
    from_user (err e) = some (err e)
    from_user (ok (user, groups)) = from_spawner groups (job_spawner job user)

    -- func buildPod; `none` is a panic.
    unfoldable pub build_pod : Option (Result (BuiltPod Quantity))
    build_pod = from_user answers.fetched
