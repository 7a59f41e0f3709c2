-- ===== src/Graphql.antt =====
-- pkg/graphql/graphql.go: the records of users, groups, images and datasets as the spawner reads them.
-- A nil pointer is `none`.
use primehub_controller.Quota.{DtoInstanceType}
use primehub_controller.Prelude.{Option, Bool, List, String}

pub record DtoDatasetSpec : Type 0 where
  pub spec_type : String
  pub volume_name : String
  pub variables : List (String × String)
  pub git_sync_host_root : String
  pub host_path : String
  pub nfs_server : String
  pub nfs_path : String

pub record DtoDataset : Type 0 where
  pub name : String
  pub writable : Bool
  pub mount_root : String
  pub home_symlink : Option Bool
  pub spec : DtoDatasetSpec

-- The fields of DtoImage and of its specification.
pub record DtoImage : Type 0 where
  pub name : String
  pub url : String
  pub url_for_gpu : String
  pub pull_secret : String

pub record InstanceType (F : Type 0) : Type 0 where
  pub name : String
  pub spec : DtoInstanceType F

-- DtoGroup without its quotas: what the groups of a user give to a pod.
pub record UserGroup (F : Type 0) : Type 0 where
  pub name : String
  pub enabled_shared_volume : Bool
  pub home_symlink : Option Bool
  pub launch_group_only : Option Bool
  pub instance_types : List (InstanceType F)
  pub images : List DtoImage
  pub datasets : List DtoDataset

-- DtoData: the user and its groups.
pub record DtoUser (F : Type 0) : Type 0 where
  pub username : String
  pub groups : List (UserGroup F)
