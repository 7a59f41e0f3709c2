-- ===== src/Spawn/Samples.antt =====
-- A user in a group with a shared volume and two datasets, and the pods of a job and an application.
use primehub_controller.GoText.{last_code, Casing}
use primehub_controller.Prelude.{
  map, lookup, put, some, refl, ◌⊎◌, pos, true, none, ◌≡◌, All, [], ◌∷◌, false, Bool, Option, ℤ,
  String, List,
}
use primehub_controller.Graphql.{DtoDataset, DtoUser, UserGroup, DtoImage}
use primehub_controller.Spawn.{no_container, Spawner, Container, new_spawner, SpawnerOptions}
use primehub_controller.Spawn.Build.{patch_pod_spec, PodSpec}
use primehub_controller.Spawn.Constructors.{new_spawner_for_ph_application}
use primehub_controller.Spawn.Granted.{
  granted_entry, granted_of, apply_datasets, writable_in, collect_dataset, collect_group,
  merge_from, collect, is_key, granted_datasets,
}
use primehub_controller.Spawn.Resources.{convert_memory_unit}
use primehub_controller.Numeric.Exact.{exact, gibibytes}
use primehub_controller.Spawn.Mounts.{IsClosed}
use primehub_controller.Quota.Samples.{small_type}
use primehub_controller.Spawn.Grants.{apply_datasets-IsGranted, IsGranted}
use primehub_controller.Spawn.AppSpawners.{new_spawner_for_ph_application-IsClosed}
use primehub_controller.Spawn.Merged.{merge_from-Merges}

abbrev pub plain : Casing
plain = record { to_lower = λ s. s; to_upper = λ s. s }

abbrev pub in_order : List (String × DtoDataset) → List (String × DtoDataset)
in_order entries = entries

in_order-shows :
    (P : String × DtoDataset → Type 0) (entries : List (String × DtoDataset))
    → All P entries
    → All P (in_order entries)
in_order-shows P entries h = h

abbrev dataset_of : String → Bool → DtoDataset
dataset_of name writable = record {
  name = name;
  writable = writable;
  mount_root = "";
  home_symlink = none;
  spec = record {
    spec_type = "nfs";
    volume_name = "";
    variables = [];
    git_sync_host_root = "";
    host_path = "";
    nfs_server = "storage";
    nfs_path = "/export";
  };
}

abbrev base_image : DtoImage
base_image = record {
  name = "base";
  url = "hub/base";
  url_for_gpu = "hub/base-gpu";
  pull_secret = "";
}

abbrev group_of : String → List DtoDataset → UserGroup ℤ
group_of name datasets = record {
  name = name;
  enabled_shared_volume = true;
  home_symlink = none;
  launch_group_only = none;
  instance_types = record { name = "small"; spec = small_type } ∷ [];
  images = base_image ∷ [];
  datasets = datasets;
}

abbrev pub research_group : UserGroup ℤ
research_group = group_of "research_a" (dataset_of "faces" false ∷ dataset_of "texts" true ∷ [])

abbrev pub everyone : UserGroup ℤ
everyone = group_of "everyone" (dataset_of "faces" true ∷ [])

abbrev pub ada : DtoUser ℤ
ada = record {
  username = "ada";
  groups = research_group ∷ everyone ∷ group_of "other" (dataset_of "secrets" true ∷ []) ∷ [];
}

abbrev options : SpawnerOptions ℤ
options = record {
  working_dir = "";
  working_dir_size = gibibytes 5;
  phfs_enabled = true;
  phfs_pvc = "phfs";
  artifact_enabled = true;
  artifact_limit_size_mb = pos 100;
  artifact_limit_files = pos 0;
  artifact_retention_seconds = pos 60;
  grant_sudo = false;
}

abbrev pub show : ℤ → String
show n = "100"

abbrev empty_pod : PodSpec ℤ
empty_pod = record {
  volumes = [];
  containers = [];
  init_containers = [];
  image_pull_secrets = [];
  security_context = none;
  node_selector = [];
  tolerations = [];
}

apply_datasets-IsGranted_example :
    All
      (λ m. (m.name ≡ "") ⊎ IsGranted "research_a" ada.groups m)
      (apply_datasets in_order plain
        (pos 1)
        ada.groups
        "research_a"
        "/home"
        new_spawner).volume_mounts
unfolding new_spawner
apply_datasets-IsGranted_example =
    apply_datasets-IsGranted "research_a" ada.groups in_order plain (pos 1) "/home" new_spawner
      (λ m. m.name ≡ "") in_order-shows tt

-- The mounts of the datasets: both of the group, that of everyone's for writing, and no other.
datasets_of_ada :
    map {B = String × Bool}
      (λ d. (d.name, d.writable))
      (granted_datasets in_order ada.groups "research_a")
    ≡ ("faces", true) ∷ ("texts", true) ∷ []
unfolding granted_datasets collect collect_group collect_dataset granted_of granted_entry put lookup
datasets_of_ada = refl

merge_from-Merges_example :
    (is_key "faces" (merge_from (dataset_of "faces" false ∷ dataset_of "faces" true ∷ []) [])
      ≡ true)
    × (writable_in "faces" (merge_from (dataset_of "faces" false ∷ dataset_of "faces" true ∷ []) [])
        ≡ true)
merge_from-Merges_example =
    merge_from-Merges "faces" (dataset_of "faces" false ∷ dataset_of "faces" true ∷ [])

-- The limit that a pod gets for 4G is that for 4Gi, which is more than the 4G that is counted.
convert_memory_unit-4G : convert_memory_unit "4G" ≡ "4Gi"
unfolding convert_memory_unit last_code
convert_memory_unit-4G = refl

abbrev notebook : Container ℤ
notebook = record no_container { name = "notebook"; image = "hub/notebook" }

abbrev app_pod : PodSpec ℤ
app_pod = record empty_pod { containers = notebook ∷ [] }

abbrev app_result : Option (Spawner ℤ)
app_result =
    new_spawner_for_ph_application plain in_order (pos 1) (gibibytes 5) "app-1" "https://hub"
      research_group small_type [] app_pod "/workspace" options

abbrev made_app : Option (Spawner ℤ) → Spawner ℤ
made_app (some spawner) = spawner
made_app none = new_spawner

new_spawner_for_ph_application-IsClosed_example :
    IsClosed (patch_pod_spec (made_app app_result) app_pod)
unfolding new_spawner_for_ph_application
new_spawner_for_ph_application-IsClosed_example =
    new_spawner_for_ph_application-IsClosed plain in_order (pos 1) (gibibytes 5) "app-1"
      "https://hub" research_group small_type [] app_pod "/workspace" options (made_app app_result)
      app_pod refl ((tt, tt), tt)
