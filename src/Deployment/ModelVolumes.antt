-- ===== src/Deployment/ModelVolumes.antt =====
-- ee/controllers/phdeployment_controller.go: the kinds of volumes of a model, and what a source of models is.
use Prim.Native.Char.{code}
use Prim.Native.String.{◌++◌ as ◌+++◌}
use primehub_controller.Prelude.{
  Bool, List, Option, Result, String, [], ◌∷◌, ◌++◌, str_eq, ◌&&◌, ◌||◌, ◌==◌, not, false, true,
  some, none, ok, err, message, if◌then◌else◌,
}
use primehub_controller.GoText.{Casing, is_empty, drop_chars}
use primehub_controller.GoText.Search.{has_prefix}
use primehub_controller.Spawn.{Container, no_container, VolumeMount, EnvVar, literal}
use primehub_controller.Spawn.Volumes.{volume_name}

-- The volume sources of a model deployment: the annotations of the pod, an empty directory, a claim, and
-- the root of an NFS server, which is read only.
pub data ModelSource : Type 0 where
  pod_info empty_directory : ModelSource
  group_claim nfs_server : String → ModelSource

pub record ModelVolume : Type 0 where
  pub name : String
  pub source : ModelSource

-- The settings of the reconciler.
pub record Settings : Type 0 where
  pub engine_image : String
  pub storage_image : String
  pub mlflow_storage_image : String
  pub phfs_enabled : Bool
  pub phfs_pvc : String
  pub primehub_url : String
  pub image_prefix : String

-- What buildDeployment has put together for the model.
pub record Storage (Q : Type 0) : Type 0 where
  pub uri : String
  pub mounts : List VolumeMount
  pub init_containers : List (Container Q)
  pub volumes : List ModelVolume

-- The first group of the regular expression: [^/]+
unfoldable pub server_part : String → String
server_part String.[] = String.[]
server_part (String.◌∷◌ c s) =
    let rest = server_part s in if code c == 47 then String.[] else String.◌∷◌ c rest

-- Up to the end of the line.
unfoldable pub line_part : String → String
line_part String.[] = String.[]
line_part (String.◌∷◌ c s) =
    let rest = line_part s in if code c == 10 then String.[] else String.◌∷◌ c rest

-- What is left from the first slash on.
unfoldable pub path_part : String → String
path_part String.[] = String.[]
path_part (String.◌∷◌ c s) = let rest = path_part s in if code c == 47 then String.◌∷◌ c s else rest

-- The second group, (/.+)?, where a path that does not match is the root.
abbrev pub path_or_root : String → String
path_or_root path = if str_eq (line_part path) "/" || is_empty path then "/" else line_part path

-- The two groups of the first match of nfs://([^/]+)(/.+)?
unfoldable pub find_nfs : String → Option (String × String)
find_nfs String.[] = none
find_nfs (String.◌∷◌ c s) =
    let rest = find_nfs s in
    let after = drop_chars 6 (String.◌∷◌ c s) in
    if has_prefix (String.◌∷◌ c s) "nfs://" && not (is_empty (server_part after))
    then some (server_part after, path_or_root (path_part after))
    else rest

-- func ExtractNFSConfig; `none` is the panic of an index into no matches.
unfoldable pub extract_nfs_config : String → Option (Result (String × String))
extract_nfs_config uri =
    if not (has_prefix uri "nfs://")
    then some (err (message ("invalid nfs uri " +++ uri)))
    else elim (find_nfs uri) [ none ↦ none | some groups ↦ some (ok groups) ]

-- A text that is longer than its prefix.
abbrev pub goes_on : String → String → Bool
goes_on uri prefix = has_prefix uri prefix && not (str_eq uri prefix)

abbrev pub plain_mount : String → String → VolumeMount
plain_mount path name = record { mount_path = path; name = name; sub_path = ""; read_only = false }

abbrev pub model_mount : VolumeMount
model_mount = plain_mount "/mnt/models" "model-storage"

abbrev pub nfs_mount : VolumeMount
nfs_mount = record (plain_mount "/nfs" "nfs") { read_only = true }

abbrev pub volume : String → ModelSource → ModelVolume
volume name source = record { name = name; source = source }

-- type DtoMlflow
pub record Mlflow : Type 0 where
  pub tracking_uri : String
  pub ui_url : String
  pub tracking_envs : List EnvVar
  pub artifact_envs : List EnvVar

abbrev mlflow_env : Option Mlflow → List EnvVar
mlflow_env none = []
mlflow_env (some mlflow) =
    record { name = "MLFLOW_TRACKING_URI"; value = literal mlflow.tracking_uri }
    ∷ record { name = "MLFLOW_UI_URL"; value = literal mlflow.ui_url }
    ∷ (mlflow.tracking_envs ++ mlflow.artifact_envs)

-- func BuildMlflowEnvironmentVariables, for the names of the groups of a user and their settings.
unfoldable pub build_mlflow_environment_variables :
    String → List (String × Option Mlflow) → List EnvVar
build_mlflow_environment_variables group_name [] = []
build_mlflow_environment_variables group_name (group ∷ groups) =
    let rest = build_mlflow_environment_variables group_name groups in
    if str_eq group.0 group_name then mlflow_env group.1 ++ rest else rest

abbrev pub literal_env : String → String → EnvVar
literal_env name value = record { name = name; value = literal value }

abbrev pub init_container :
    {Q : Type 0} → String → List String → List EnvVar → List VolumeMount → Container Q
init_container image args env mounts = record no_container {
  name = "model-storage-initializer";
  image = image;
  args = args;
  env = env;
  volume_mounts = mounts;
}

abbrev pub no_storage : {Q : Type 0} → String → Storage Q
no_storage uri = record {
  uri = uri;
  mounts = [];
  init_containers = [];
  volumes = volume "podinfo" pod_info ∷ [];
}

abbrev pub phfs_mount : Casing → String → VolumeMount
phfs_mount casing group_name = record {
  mount_path = "/phfs";
  name = "phfs";
  sub_path = "groups/" +++ volume_name casing group_name;
  read_only = true;
}

abbrev pub group_volume : Casing → String → String
group_volume casing group_name = "project-" +++ volume_name casing group_name
