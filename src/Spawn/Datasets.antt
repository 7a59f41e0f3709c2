-- ===== src/Spawn/Datasets.antt =====
-- pkg/graphql/spawn.go: the datasets of the groups as volumes, symbolic links and variables of a pod.
use Prim.Native.String.{◌++◌ as ◌+++◌}
use text.Mathlib.Text.{starts_with}
use primehub_controller.Prelude.{
  ◌++◌, ◌∷◌, true, [], ◌&&◌, not, none, leb, str_eq, some, false, ◌||◌, ◌==◌, if◌then◌else◌,
  if◌then◌else◌, List, Option, Bool, String, ℕ,
}
use primehub_controller.GoText.{
  all_codes, replace_char, text_ltb, join_path, sort_stable, drop_chars, is_empty, Casing,
}
use primehub_controller.Spawn.{host_path, literal, claim, nfs, EnvVar, Spawner, VolumeSource}
use primehub_controller.Graphql.{DtoDataset}
use primehub_controller.Spawn.Volumes.{apply_empty_dir_volume, flag, mount, add_env, add_symlink}
use Prim.Native.Char.{code}

-- The class [-._a-zA-Z], and with the digits.
abbrev is_key_start : ℕ → Bool
is_key_start c = c == 45 || c == 46 || c == 95 || (leb 97 c && leb c 122) || (leb 65 c && leb c 90)

abbrev is_key_char : ℕ → Bool
is_key_char c = is_key_start c || (leb 48 c && leb c 57)

abbrev is_env_key : String → Bool
is_env_key String.[] = false
is_env_key (String.◌∷◌ c s) = is_key_start (code c) && all_codes is_key_char s

-- func transformEnvKey; an invalid key is `none`.
unfoldable pub transform_env_key : Casing → String → String → Option String
transform_env_key casing prefix key =
    let env_key = casing.to_upper (prefix +++ "_" +++ key) in
    if is_env_key env_key then some env_key else none

-- The variables for one key: under the key, and without its hyphens where it has some.
unfoldable pub env_of_key : Casing → String → String × String → List EnvVar
env_of_key casing prefix variable = elim (transform_env_key casing prefix variable.0) [
  | none ↦ []
  | some env_key ↦
      let patched_key = replace_char "-" "_" env_key in
      record { name = env_key; value = literal variable.1 }
      ∷ (if str_eq patched_key env_key
          then []
          else record { name = patched_key; value = literal variable.1 } ∷ [])
]

unfoldable pub env_of_keys : Casing → String → List (String × String) → List EnvVar
env_of_keys casing prefix [] = []
env_of_keys casing prefix (variable ∷ variables) =
    env_of_key casing prefix variable ++ env_of_keys casing prefix variables

abbrev git_root : String → String
git_root root = if is_empty root then "/home/dataset/" else root

abbrev dataset_root : DtoDataset → String
dataset_root dataset = if is_empty dataset.mount_root then "/datasets/" else dataset.mount_root

module _ {Q : Type 0} (casing : Casing) where
  -- A volume at the mount path of a dataset, and the link to it.
  unfoldable pub mount_dataset :
      VolumeSource Q → String → String → String → String → Bool → Spawner Q → Spawner Q
  mount_dataset source logic_name mount_path target dataset_path read_only spawner =
      add_symlink ("ln -sf " +++ target +++ " " +++ dataset_path) (
        mount source
          (record {
            mount_path = mount_path;
            name = logic_name;
            sub_path = "";
            read_only = read_only;
          })
          spawner)

  -- The volume of applyVolumeForPvDataset.
  abbrev pv_source : String → VolumeSource Q
  pv_source name =
      if starts_with name "hostpath:"
      then host_path (drop_chars 9 name)
      else claim ("dataset-" +++ name)

  -- func applyVolumeForEnvDataset
  unfoldable pub apply_volume_for_env_dataset : DtoDataset → Spawner Q → Spawner Q
  apply_volume_for_env_dataset dataset = add_env (
      env_of_keys casing dataset.name
        (sort_stable (λ a b. text_ltb a.0 b.0) dataset.spec.variables))

  -- func applyVolumeForHostPathDataset
  unfoldable pub apply_volume_for_host_path_dataset :
      DtoDataset → String → String → String → Spawner Q → Spawner Q
  apply_volume_for_host_path_dataset dataset logic_name mount_path dataset_path spawner =
      if is_empty dataset.spec.host_path
      then spawner
      else mount_dataset (host_path dataset.spec.host_path) logic_name mount_path mount_path
          dataset_path (not dataset.writable) spawner

  -- func applyVolumeForNfsDataset
  unfoldable pub apply_volume_for_nfs_dataset :
      DtoDataset → String → String → String → Spawner Q → Spawner Q
  apply_volume_for_nfs_dataset dataset logic_name mount_path dataset_path spawner =
      if is_empty dataset.spec.nfs_server || is_empty dataset.spec.nfs_path
      then spawner
      else mount_dataset (nfs dataset.spec.nfs_server dataset.spec.nfs_path) logic_name mount_path
          mount_path dataset_path (not dataset.writable) spawner

  -- The switch over the types: the functions for pv, git, hostPath and nfs.
  unfoldable pub apply_dataset_volume :
      DtoDataset → String → String → String → Spawner Q → Option (Spawner Q)
  apply_dataset_volume dataset logic_name mount_path dataset_path spawner =
      if str_eq dataset.spec.spec_type "pv"
      then some (
          mount_dataset (pv_source dataset.spec.volume_name) logic_name mount_path mount_path
            dataset_path (not dataset.writable) spawner)
      else if str_eq dataset.spec.spec_type "git"
      then some (
          mount_dataset
            (host_path (join_path (git_root dataset.spec.git_sync_host_root) dataset.name))
            logic_name mount_path (join_path mount_path dataset.name) dataset_path true spawner)
      else if str_eq dataset.spec.spec_type "hostPath"
      then some
          (apply_volume_for_host_path_dataset dataset logic_name mount_path dataset_path spawner)
      else if str_eq dataset.spec.spec_type "nfs"
      then some (apply_volume_for_nfs_dataset dataset logic_name mount_path dataset_path spawner)
      else none

  -- The end of applyDataset: the link for a mounted volume, or the variables.
  unfoldable pub end_dataset : DtoDataset → String → Spawner Q → Option (Spawner Q) → Spawner Q
  end_dataset dataset dataset_path spawner (some mounted) =
      if flag dataset.home_symlink true
      then add_symlink ("ln -s " +++ dataset_path +++ " .") mounted
      else mounted
  end_dataset dataset dataset_path spawner none =
      if str_eq dataset.spec.spec_type "env"
      then apply_volume_for_env_dataset dataset spawner
      else spawner

  -- func applyDataset
  unfoldable pub apply_dataset : DtoDataset → Spawner Q → Spawner Q
  apply_dataset dataset spawner =
      let logic_name = "dataset-" +++ dataset.name in
      let dataset_path = join_path (dataset_root dataset) dataset.name in
      end_dataset dataset dataset_path spawner (
        apply_dataset_volume dataset logic_name (join_path "/mnt/" logic_name) dataset_path spawner)

  unfoldable pub apply_each : List DtoDataset → Spawner Q → Spawner Q
  apply_each [] spawner = spawner
  apply_each (dataset ∷ datasets) spawner = apply_each datasets (apply_dataset dataset spawner)

  -- func applyVolumeForDatasetDir; `size_limit` is 1M.
  unfoldable pub apply_volume_for_dataset_dir : Q → String → Spawner Q → Spawner Q
  apply_volume_for_dataset_dir size_limit working_dir spawner =
      add_symlink
        ("test -d "
          +++ join_path working_dir "datasets"
          +++ " || ln -sf /datasets "
          +++ working_dir)
        (apply_empty_dir_volume "datasets" "/datasets" size_limit spawner)
