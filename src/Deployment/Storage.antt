-- ===== src/Deployment/Storage.antt =====
-- ee/controllers/phdeployment_controller.go: the part of buildDeployment that brings a model into the pod,
-- and ExtractNFSConfig.
use Prim.Native.String.{◌++◌ as ◌+++◌}
use primehub_controller.Prelude.{
  List, Option, Result, String, [], ◌∷◌, ◌++◌, ◌||◌, not, some, none, ok, err, message,
  if◌then◌else◌,
}
use primehub_controller.GoText.{Casing, is_empty}
use primehub_controller.GoText.Search.{has_prefix, replace_from}
use primehub_controller.Spawn.Volumes.{volume_name}
use primehub_controller.Deployment.ModelVolumes.{
  Mlflow, Settings, Storage, build_mlflow_environment_variables, empty_directory,
  extract_nfs_config, goes_on, group_claim, group_volume, init_container, literal_env, model_mount,
  nfs_mount, nfs_server, no_storage, phfs_mount, plain_mount, volume,
}

module _ (casing : Casing) (settings : Settings) (group_name : String) where
  -- The model is in the file system of the group.
  unfoldable pub phfs_step : {Q : Type 0} → Storage Q → Result (Storage Q)
  phfs_step storage =
      if goes_on storage.uri "phfs"
      then (if not settings.phfs_enabled || is_empty settings.phfs_pvc
          then err (message "Phfs is not enabled")
          else ok (record storage {
            uri = replace_from 0 6 "phfs://" "file:///phfs" storage.uri;
            mounts = storage.mounts ++ phfs_mount casing group_name ∷ [];
            volumes = storage.volumes ++ volume "phfs" (group_claim settings.phfs_pvc) ∷ [];
          }))
      else ok storage

  abbrev pub with_server : {Q : Type 0} → Storage Q → Result (String × String) → Result (Storage Q)
  with_server storage (err e) = err e
  with_server storage (ok (server, path)) = ok (record storage {
    uri = "file:///nfs" +++ path;
    mounts = storage.mounts ++ nfs_mount ∷ [];
    volumes = storage.volumes ++ volume "nfs" (nfs_server server) ∷ [];
  })

  abbrev pub found_server :
      {Q : Type 0} → Storage Q → Option (Result (String × String)) → Option (Result (Storage Q))
  found_server storage none = none
  found_server storage (some found) = some (with_server storage found)

  -- The model is on an NFS server.
  unfoldable pub nfs_step : {Q : Type 0} → Storage Q → Option (Result (Storage Q))
  nfs_step storage =
      if has_prefix storage.uri "nfs://"
      then found_server storage (extract_nfs_config storage.uri)
      else some (ok storage)

  -- The model is in the registry of Mlflow: the volume of the group, and the container that copies it.
  abbrev pub from_mlflow :
      {Q : Type 0} → Storage Q → Result (List (String × Option Mlflow)) → Result (Storage Q)
  from_mlflow storage (err e) = err e
  from_mlflow storage (ok groups) =
      let name = group_volume casing group_name in
      let mounts =
        storage.mounts ++ plain_mount ("/project/" +++ volume_name casing group_name) name ∷ [] in
      ok (record storage {
        mounts = mounts;
        init_containers =
            init_container settings.mlflow_storage_image (storage.uri ∷ [])
              (build_mlflow_environment_variables group_name groups) mounts
            ∷ [];
        volumes =
            storage.volumes
            ++ volume name (group_claim name) ∷ volume "model-storage" empty_directory ∷ [];
      })

  -- The container that copies the model, and its volume.
  unfoldable pub init_step :
      {Q : Type 0} → Result (List (String × Option Mlflow)) → Storage Q → Result (Storage Q)
  init_step fetched storage =
      if goes_on storage.uri "models:/"
      then from_mlflow storage fetched
      else ok (record storage {
        init_containers =
            init_container settings.storage_image (storage.uri ∷ "/mnt/models" ∷ [])
              (literal_env "GCE_METADATA_IP" "127.0.0.1"
                ∷ literal_env "GCE_METADATA_HOST" "127.0.0.1"
                ∷ [])
              storage.mounts
            ∷ [];
        volumes = storage.volumes ++ volume "model-storage" empty_directory ∷ [];
      })

  abbrev pub after_nfs :
      {Q : Type 0}
      → Result (List (String × Option Mlflow))
      → Option (Result (Storage Q))
      → Option (Result (Storage Q))
  after_nfs fetched none = none
  after_nfs fetched (some (err e)) = some (err e)
  after_nfs fetched (some (ok storage)) = some (init_step fetched storage)

  abbrev pub after_phfs :
      {Q : Type 0}
      → Result (List (String × Option Mlflow))
      → Result (Storage Q)
      → Option (Result (Storage Q))
  after_phfs fetched (err e) = some (err e)
  after_phfs fetched (ok storage) = after_nfs fetched (nfs_step storage)

  -- The volumes and the init containers of buildDeployment; `none` is a panic.
  unfoldable pub model_storage :
      {Q : Type 0} → String → Result (List (String × Option Mlflow)) → Option (Result (Storage Q))
  model_storage uri fetched =
      if is_empty uri
      then some (ok (no_storage uri))
      else after_phfs fetched (phfs_step (record (no_storage uri) { mounts = model_mount ∷ [] }))
