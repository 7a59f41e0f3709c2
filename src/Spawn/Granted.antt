-- ===== src/Spawn/Granted.antt =====
-- pkg/graphql/spawn.go: which datasets a pod gets, and whether it may write to them.
use primehub_controller.Prelude.{
  ◌∷◌, ◌++◌, none, true, false, some, ◌||◌, put, if◌then◌else◌, if◌then◌else◌, Option, str_eq,
  lookup, [], String, Bool, List,
}
use primehub_controller.Graphql.{UserGroup, DtoDataset}
use primehub_controller.GoText.{text_ltb, sort_stable, Casing}
use primehub_controller.Spawn.{Spawner}
use primehub_controller.Spawn.Datasets.{apply_each, apply_volume_for_dataset_dir}

-- The three maps of applyDatasets.
pub record DatasetMaps : Type 0 where
  pub launch : List (String × DtoDataset)
  pub everyone : List (String × DtoDataset)
  pub every : List (String × DtoDataset)

abbrev pub put_if : Bool → DtoDataset → List (String × DtoDataset) → List (String × DtoDataset)
put_if b dataset entries = if b then put dataset.name dataset entries else entries

abbrev pub put_absent :
    Option DtoDataset → DtoDataset → List (String × DtoDataset) → List (String × DtoDataset)
put_absent (some _) dataset entries = entries
put_absent none dataset entries = put dataset.name dataset entries

unfoldable pub collect_dataset : String → String → DtoDataset → DatasetMaps → DatasetMaps
collect_dataset launch_group group_name dataset maps = record {
  launch = put_if (str_eq group_name launch_group) dataset maps.launch;
  everyone = put_if (str_eq group_name "everyone") dataset maps.everyone;
  every = put_absent (lookup dataset.name maps.every) dataset maps.every;
}

unfoldable pub collect_group : String → String → List DtoDataset → DatasetMaps → DatasetMaps
collect_group launch_group group_name [] maps = maps
collect_group launch_group group_name (dataset ∷ datasets) maps =
    collect_group launch_group group_name datasets
      (collect_dataset launch_group group_name dataset maps)

unfoldable pub collect : {F : Type 0} → String → List (UserGroup F) → DatasetMaps → DatasetMaps
collect launch_group [] maps = maps
collect launch_group (group ∷ groups) maps =
    collect launch_group groups (collect_group launch_group group.name group.datasets maps)

abbrev pub writable_in : String → List (String × DtoDataset) → Bool
writable_in name entries = elim (lookup name entries) [
  | some dataset ↦ dataset.writable
  | none ↦ false
]

abbrev pub is_key : String → List (String × DtoDataset) → Bool
is_key name entries = elim (lookup name entries) [ some _ ↦ true | none ↦ false ]

-- The dataset of an entry as it is applied, if it is.
unfoldable pub granted_entry : DatasetMaps → String × DtoDataset → Option DtoDataset
granted_entry maps entry =
    if is_key entry.0 maps.launch || is_key entry.0 maps.everyone
    then some (record entry.1 {
      writable = writable_in entry.0 maps.launch || writable_in entry.0 maps.everyone;
    })
    else none

abbrev pub cons_found : Option DtoDataset → List DtoDataset → List DtoDataset
cons_found (some dataset) datasets = dataset ∷ datasets
cons_found none datasets = datasets

unfoldable pub granted_of : DatasetMaps → List (String × DtoDataset) → List DtoDataset
granted_of maps [] = []
granted_of maps (entry ∷ entries) = cons_found (granted_entry maps entry) (granted_of maps entries)

abbrev pub no_datasets : DatasetMaps
no_datasets = record { launch = []; everyone = []; every = [] }

-- A later dataset of a name replaces an earlier one if it is writable.
unfoldable pub merge_found :
    Option DtoDataset → DtoDataset → List (String × DtoDataset) → List (String × DtoDataset)
merge_found none dataset entries = put dataset.name dataset entries
merge_found (some _) dataset entries =
    if dataset.writable then put dataset.name dataset entries else entries

unfoldable pub merge_one : DtoDataset → List (String × DtoDataset) → List (String × DtoDataset)
merge_one dataset entries = merge_found (lookup dataset.name entries) dataset entries

unfoldable pub merge_from :
    List DtoDataset → List (String × DtoDataset) → List (String × DtoDataset)
merge_from [] entries = entries
merge_from (dataset ∷ datasets) entries = merge_from datasets (merge_one dataset entries)

abbrev values : List (String × DtoDataset) → List DtoDataset
values [] = []
values (entry ∷ entries) = entry.1 ∷ values entries

-- The order in which a `range` over a map visits its entries is a parameter.
module _ (range : List (String × DtoDataset) → List (String × DtoDataset)) where
  -- The datasets that applyDatasets applies, in their order.
  unfoldable pub granted_datasets : {F : Type 0} → List (UserGroup F) → String → List DtoDataset
  granted_datasets groups launch_group =
      let maps = collect launch_group groups no_datasets in granted_of maps (range maps.every)

  -- func applyDatasets
  unfoldable pub apply_datasets :
      {F Q : Type 0} → Casing → Q → List (UserGroup F) → String → String → Spawner Q → Spawner Q
  apply_datasets casing size_limit groups launch_group working_dir spawner =
      apply_volume_for_dataset_dir casing size_limit working_dir
        (apply_each casing (granted_datasets groups launch_group) spawner)

  -- func mergeDataset
  unfoldable pub merge_dataset : List DtoDataset → List DtoDataset → List DtoDataset
  merge_dataset slice elems =
      sort_stable (λ a b. text_ltb b.name a.name) (values (range (merge_from (slice ++ elems) [])))
