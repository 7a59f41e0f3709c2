-- ===== src/JobPod/Additions.antt =====
-- ee/controllers/phjob_controller.go: what buildPod and attachMonitoringAgent add to the pod of the spawner.
use Prim.Native.String.{◌++◌ as ◌+++◌}
use mathlib.Core.Option
use primehub_controller.Prelude.{
  String, Bool, false, Option, none, some, List, [], ◌∷◌, ◌++◌, Result, ok, err, ℤ, if◌then◌else◌,
}
use primehub_controller.GoText.{is_empty}
use primehub_controller.Kube.{Toleration}
use primehub_controller.PhJob.{PhJob}
use primehub_controller.Spawn.{
  VolumeMount, EnvVar, literal, Container, no_container, unsized_dir, memory_dir,
}
use primehub_controller.Spawn.Build.{PodSpec}
use primehub_controller.Deployment.ModelVolumes.{Mlflow, build_mlflow_environment_variables}

-- The fields of PhJobReconciler that buildPod reads.
pub record PodSettings (Q : Type 0) : Type 0 where
  pub working_dir_size : Q
  pub node_selector : List (String × String)
  pub tolerations : List Toleration
  pub phfs_enabled : Bool
  pub phfs_pvc : String
  pub artifact_enabled : Bool
  pub artifact_limit_size_mb : ℤ
  pub artifact_limit_files : ℤ
  pub grant_sudo : Bool
  pub artifact_retention_seconds : ℤ
  pub agent_repository : String
  pub agent_tag : String

-- A mount for writing at a path.
abbrev pub mount_of : String → String → VolumeMount
mount_of name path = record { mount_path = path; name = name; sub_path = ""; read_only = false }

-- The containers with one more mount in the first; `none` is the panic of the index.
unfoldable pub mount_in_first :
    {Q : Type 0} → VolumeMount → List (Container Q) → Option (List (Container Q))
mount_in_first mount [] = none
mount_in_first mount (first ∷ others) =
    some (record first { volume_mounts = first.volume_mounts ++ mount ∷ [] } ∷ others)

abbrev or_default : String → String → String
or_default text default = if is_empty text then default else text

abbrev agent_mount : VolumeMount
agent_mount = mount_of "monitoring-utils" "/monitoring-utils"

-- The init container of the agent. The defaults, which the code stores in the reconciler as well, are
-- the same at each call.
unfoldable pub agent_container : {Q : Type 0} → PodSettings Q → Container Q
agent_container settings = record no_container {
  name = "copy-monitoring-utils";
  command = "cp" ∷ "/primehub-monitoring-agent" ∷ "/monitoring-utils" ∷ [];
  volume_mounts = agent_mount ∷ [];
  image =
      or_default settings.agent_repository "infuseai/primehub-monitoring-agent"
      +++ ":"
      +++ or_default settings.agent_tag "latest";
}

-- func attachMonitoringAgent
unfoldable pub attach_monitoring_agent :
    {Q : Type 0} → PodSettings Q → PodSpec Q → Option (PodSpec Q)
attach_monitoring_agent settings spec =
    if settings.artifact_enabled
    then Option.map
        (λ containers. record spec {
          volumes = spec.volumes ++ record { name = "monitoring-utils"; source = unsized_dir } ∷ [];
          containers = containers;
          init_containers = spec.init_containers ++ agent_container settings ∷ [];
        })
        (mount_in_first agent_mount spec.containers)
    else some spec

-- The variables, after those that each container has.
unfoldable pub append_env : {Q : Type 0} → List EnvVar → List (Container Q) → List (Container Q)
append_env variables [] = []
append_env variables (container ∷ containers) =
    record container { env = container.env ++ variables } ∷ append_env variables containers

abbrev variable : String → String → EnvVar
variable name value = record { name = name; value = literal value }

-- The time zone, which is left out where the cache has none.
unfoldable pub with_time_zone :
    {Q : Type 0} → Result String → List (Container Q) → List (Container Q)
with_time_zone (ok location) containers = append_env (variable "TZ" location ∷ []) containers
with_time_zone (err e) containers = containers

-- envsToAppend
unfoldable pub job_env : PhJob → List EnvVar
job_env job =
    variable "GROUP_ID" job.spec.group_id
    ∷ variable "GROUP_NAME" job.spec.group_name
    ∷ variable "JUPYTERHUB_USER" job.spec.user_name
    ∷ variable "INSTANCE_TYPE" job.spec.instance_type
    ∷ variable "IMAGE_NAME" job.spec.image
    ∷ []

-- The init container that the admission webhook takes out; without the webhook it fails.
abbrev admission_container : {Q : Type 0} → Container Q
admission_container = record no_container {
  name = "admission-is-not-found";
  image = "admission-is-not-found";
  command = "false" ∷ [];
}

-- The shared memory of the main container, and the init container of the admission.
unfoldable pub with_shared_memory : {Q : Type 0} → PodSpec Q → Option (PodSpec Q)
with_shared_memory spec =
    Option.map
      (λ containers. record spec {
        volumes = spec.volumes ++ record { name = "dshm"; source = memory_dir } ∷ [];
        containers = containers;
        init_containers = spec.init_containers ++ admission_container ∷ [];
      })
      (mount_in_first (mount_of "dshm" "/dev/shm") spec.containers)

-- The containers with the variables of the time zone, of the job and of Mlflow.
unfoldable pub with_job_env :
    {Q : Type 0} → PhJob → Result String → List (String × Option Mlflow) → PodSpec Q → PodSpec Q
with_job_env job time_zone groups spec = record spec {
  containers =
      append_env (job_env job ++ build_mlflow_environment_variables job.spec.group_name groups)
        (with_time_zone time_zone spec.containers);
}
