-- ===== src/Spawn.antt =====
-- pkg/graphql/spawn.go: the spawner and the parts of Kubernetes objects that it puts together. The
-- affinity is carried along by the code and not modelled.
pub mod Volumes
pub mod Datasets
pub mod Granted
pub mod Grants
pub mod Resources
pub mod Build
pub mod Constructors
pub mod Steps
pub mod JobSteps
pub mod Mounts
pub mod Closed
pub mod Spawners
pub mod AppSpawners
pub mod Memory
pub mod Merged
pub mod Samples
use Prim.Native.String.{◌++◌ as ◌+++◌}
use primehub_controller.Prelude.{
  true, str_eq, some, ltb_ℤ, not, ◌&&◌, none, if◌then◌else◌, false, ◌∷◌, [], ℕ, Bool, ℤ, Option,
  ◌++◌, List, String,
}
use primehub_controller.Numeric.{ResourceList, Numeric}
use primehub_controller.GoText.{is_empty, replace_char, Casing}
use primehub_controller.Kube.{Toleration}
use primehub_controller.Graphql.{UserGroup}

-- corev1.VolumeSource, over the type of a quantity. `unsized_dir` is an empty directory without a limit,
-- `memory_dir` one in memory.
pub data VolumeSource (Q : Type 0) : Type 0 where
  claim : String → VolumeSource Q
  host_path : String → VolumeSource Q
  nfs : String → String → VolumeSource Q
  empty_dir : Q → VolumeSource Q
  config_map : String → Option ℕ → VolumeSource Q
  secret : String → VolumeSource Q
  unsized_dir : VolumeSource Q
  memory_dir : VolumeSource Q

pub record Volume (Q : Type 0) : Type 0 where
  pub name : String
  pub source : VolumeSource Q

pub record VolumeMount : Type 0 where
  pub mount_path : String
  pub name : String
  pub sub_path : String
  pub read_only : Bool

pub data EnvValue : Type 0 where
  literal : String → EnvValue
  field_ref : String → EnvValue

pub record EnvVar : Type 0 where
  pub name : String
  pub value : EnvValue

-- The parts of corev1.Container that the spawner reads or writes. `resources` are the requests and the
-- limits; `post_start` is the script of the lifecycle hook.
pub record Container (Q : Type 0) : Type 0 where
  pub name : String
  pub image : String
  pub command : List String
  pub args : List String
  pub working_dir : String
  pub env : List EnvVar
  pub volume_mounts : List VolumeMount
  pub requests : ResourceList Q
  pub limits : ResourceList Q
  pub run_as_user : Option ℤ
  pub post_start : Option String

-- A zero corev1.Container.
abbrev pub no_container : {Q : Type 0} → Container Q
no_container = record {
  name = "";
  image = "";
  command = [];
  args = [];
  working_dir = "";
  env = [];
  volume_mounts = [];
  requests = [];
  limits = [];
  run_as_user = none;
  post_start = none;
}

-- type Spawner; `run_as_user` is the user of the PodSecurityContext.
pub record Spawner (Q : Type 0) : Type 0 where
  pub volumes : List (Volume Q)
  pub volume_mounts : List VolumeMount
  pub env : List EnvVar
  pub prepend_env : List EnvVar
  pub working_dir : String
  pub symlinks : List String
  pub image : String
  pub image_pull_secret : String
  pub run_as_user : Option ℤ
  pub node_selector : List (String × String)
  pub tolerations : List Toleration
  pub requests_cpu : Q
  pub limits_cpu : Q
  pub requests_memory : Q
  pub limits_memory : Q
  pub requests_gpu : Q
  pub limits_gpu : Q
  pub gpu_resource_name : String
  pub container : Container Q
  pub init_container : Container Q

-- type SpawnerOptions
pub record SpawnerOptions (Q : Type 0) : Type 0 where
  pub working_dir : String
  pub working_dir_size : Q
  pub phfs_enabled : Bool
  pub phfs_pvc : String
  pub artifact_enabled : Bool
  pub artifact_limit_size_mb : ℤ
  pub artifact_limit_files : ℤ
  pub artifact_retention_seconds : ℤ
  pub grant_sudo : Bool

module _ ⦃api : Numeric⦄ where
  open api use {Quantity, zero_quantity}

  -- &Spawner{}
  unfoldable pub new_spawner : Spawner Quantity
  new_spawner = record {
    volumes = [];
    volume_mounts = [];
    env = [];
    prepend_env = [];
    working_dir = "";
    symlinks = [];
    image = "";
    image_pull_secret = "";
    run_as_user = none;
    node_selector = [];
    tolerations = [];
    requests_cpu = zero_quantity;
    limits_cpu = zero_quantity;
    requests_memory = zero_quantity;
    limits_memory = zero_quantity;
    requests_gpu = zero_quantity;
    limits_gpu = zero_quantity;
    gpu_resource_name = "";
    container = no_container;
    init_container = no_container;
  }
