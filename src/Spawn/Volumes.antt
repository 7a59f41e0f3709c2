-- ===== src/Spawn/Volumes.antt =====
-- pkg/graphql/spawn.go: the functions that add volumes, symbolic links and variables to a spawner.
use Prim.Native.String.{◌++◌ as ◌+++◌}
use primehub_controller.Prelude.{
  true, none, str_eq, pos, ltb_ℤ, not, ◌&&◌, if◌then◌else◌, some, [], ◌∷◌, ◌++◌, false, Bool, ℤ,
  List, Option, String,
}
use primehub_controller.GoText.{is_empty, replace_char, Casing}
use primehub_controller.Spawn.{
  claim, field_ref, literal, config_map, empty_dir, EnvVar, Spawner, VolumeMount, VolumeSource,
}
use primehub_controller.Graphql.{UserGroup}

abbrev pub at_path : String → String → VolumeMount
at_path mount_path name = record {
  mount_path = mount_path;
  name = name;
  sub_path = "";
  read_only = false;
}

abbrev pub flag : Option Bool → Bool → Bool
flag none default_value = default_value
flag (some b) default_value = b

-- strings.ToLower(strings.ReplaceAll(name, "_", "-"))
unfoldable pub volume_name : Casing → String → String
volume_name casing name = casing.to_lower (replace_char "_" "-" name)

module _ {Q : Type 0} where
  -- The two appends of the functions below: a volume and its mount.
  unfoldable pub mount : VolumeSource Q → VolumeMount → Spawner Q → Spawner Q
  mount source volume_mount spawner = record spawner {
    volumes = spawner.volumes ++ record { name = volume_mount.name; source = source } ∷ [];
    volume_mounts = spawner.volume_mounts ++ volume_mount ∷ [];
  }

  unfoldable pub add_symlink : String → Spawner Q → Spawner Q
  add_symlink line spawner = record spawner { symlinks = spawner.symlinks ++ line ∷ [] }

  unfoldable pub add_env : List EnvVar → Spawner Q → Spawner Q
  add_env variables spawner = record spawner { env = spawner.env ++ variables }

  -- func applyEmptyDirVolume
  unfoldable pub apply_empty_dir_volume : String → String → Q → Spawner Q → Spawner Q
  apply_empty_dir_volume name path size = mount (empty_dir size) (at_path path name)

  -- func applyScripts; the mode is 0777.
  unfoldable pub apply_scripts : String → Spawner Q → Spawner Q
  apply_scripts name = mount (config_map name (some 511)) (at_path "/scripts" "scripts")

  module _ (casing : Casing) where
    abbrev pub link_home : Bool → String → String → Spawner Q → Spawner Q
    link_home home_symlink mount_path working_dir spawner =
        if home_symlink && not (is_empty working_dir)
        then add_symlink ("ln -s " +++ mount_path +++ " " +++ working_dir) spawner
        else spawner

    -- func applyVolumeForGroup
    unfoldable pub apply_volume_for_group :
        {F : Type 0} → String → UserGroup F → String → Spawner Q → Spawner Q
    apply_volume_for_group launch_group group working_dir spawner =
        let name = "project-" +++ volume_name casing group.name in
        let mount_path = "/project/" +++ volume_name casing group.name in
        if not group.enabled_shared_volume
        then spawner
        else if not (str_eq group.name launch_group) && flag group.launch_group_only true
        then spawner
        else link_home (flag group.home_symlink true) mount_path working_dir
            (mount (claim name) (at_path mount_path name) spawner)

    -- func applyVolumeForAppRoot
    unfoldable pub apply_volume_for_app_root :
        String → String → String → String → Spawner Q → Spawner Q
    apply_volume_for_app_root group_name app_root app_id name spawner = record spawner {
      volume_mounts =
          spawner.volume_mounts
          ++ (if is_empty name
              then record {
                mount_path = app_root;
                name = "project-" +++ volume_name casing group_name;
                sub_path = "phapplications/" +++ app_id;
                read_only = false;
              }
              else at_path app_root name)
            ∷ [];
    }

    -- func applyVolumeForPhfs
    unfoldable pub apply_volume_for_phfs : String → String → String → Spawner Q → Spawner Q
    apply_volume_for_phfs group_name pvc_name working_dir spawner =
        if is_empty pvc_name
        then spawner
        else add_symlink ("ln -s /phfs " +++ working_dir) (
            mount (claim pvc_name)
              (record {
                mount_path = "/phfs";
                name = "phfs";
                sub_path = "groups/" +++ volume_name casing group_name;
                read_only = false;
              })
              spawner)

  -- func applyUserAndGroupEnv
  unfoldable pub apply_user_and_group_env : String → String → Spawner Q → Spawner Q
  apply_user_and_group_env user_name group_name = add_env (
      record { name = "PRIMEHUB_USER"; value = literal user_name }
      ∷ record { name = "PRIMEHUB_GROUP"; value = literal group_name }
      ∷ [])

  -- A variable with a number, which is set for a positive one.
  abbrev pub positive_env : String → (ℤ → String) → ℤ → Spawner Q → Spawner Q
  positive_env name show limit spawner =
      if ltb_ℤ (pos 0) limit
      then add_env (record { name = name; value = literal (show limit) } ∷ []) spawner
      else spawner

  -- func applyJobArtifact; `show` is fmt.Sprint of a number.
  unfoldable pub apply_job_artifact : (ℤ → String) → ℤ → ℤ → ℤ → Spawner Q → Spawner Q
  apply_job_artifact show limit_size_mb limit_files retention_seconds spawner =
      add_env
        (record {
          name = "PHJOB_ARTIFACT_RETENTION_SECONDS";
          value = literal (show retention_seconds);
        }
          ∷ [])
        (positive_env "PHJOB_ARTIFACT_LIMIT_FILES" show limit_files (
          positive_env "PHJOB_ARTIFACT_LIMIT_SIZE_MB" show limit_size_mb (
            add_env
              (record { name = "PHJOB_NAME"; value = field_ref "metadata.name" }
                ∷ record { name = "PHJOB_ARTIFACT_ENABLED"; value = literal "true" }
                ∷ [])
              spawner)))

  -- func applyGrantSudo
  unfoldable pub apply_grant_sudo : Bool → Spawner Q → Spawner Q
  apply_grant_sudo grant_sudo spawner =
      add_env
        (record { name = "GRANT_SUDO"; value = literal (if grant_sudo then "true" else "false") }
          ∷ [])
        (record spawner { run_as_user = if grant_sudo then some (pos 0) else none })
