-- ===== src/Spawn/Grants.antt =====
-- A pod mounts only datasets that its launch group or the group everyone has, and may write to one
-- only if one of them says so.
pub mod DatasetMounts
use Prim.Native.String.{◌++◌ as ◌+++◌}
use mathlib.Core.Bool.{false≢true}
use mathlib.Core.Option.{none-ne-some, some-injective}
use text.Mathlib.TextEquality.{eq_iff}
use primehub_controller.Prelude.{
  ap, All-map, none, All-append, if◌then◌else◌, not, sym, ◌∙◌, subst, All-lookup, Option,
  Bool-cases, lookup, refl, some, arith, Option-cases, All-put, ◌||◌, [], inr, false, ◌∷◌, inl,
  true, ◌⊎◌, All, ◌≡◌, In, Bool, List, String,
}
use primehub_controller.Graphql.{DtoDataset, UserGroup}
use primehub_controller.Spawn.{VolumeSource, Spawner, VolumeMount}
use primehub_controller.Spawn.Granted.{
  apply_datasets, no_datasets, granted_datasets, cons_found, granted_entry, put_absent, granted_of,
  is_key, writable_in, put_if, collect, collect_group, collect_dataset, DatasetMaps,
}
use primehub_controller.GoText.{Casing}
use primehub_controller.Spawn.Datasets.{
  apply_volume_for_dataset_dir, apply_volume_for_nfs_dataset, apply_dataset,
  apply_volume_for_env_dataset, apply_volume_for_host_path_dataset, apply_each, end_dataset,
  apply_dataset_volume, mount_dataset,
}
use primehub_controller.Spawn.Volumes.{apply_empty_dir_volume, add_env, add_symlink, mount}
use primehub_controller.Spawn.Grants.DatasetMounts.{apply_each-Mounts, Mounts}

module _ {F : Type 0} (launch_group : String) (groups : List (UserGroup F)) where
  -- The dataset stands in the launch group or in the group everyone.
  abbrev pub Offers : DtoDataset → Type 0
  Offers dataset =
      (group : UserGroup F) × In group groups
      × ((group.name ≡ launch_group) ⊎ (group.name ≡ "everyone"))
      × In dataset group.datasets

  -- An entry of the maps `launch` and `everyone`.
  abbrev OffersEntry : String × DtoDataset → Type 0
  OffersEntry entry = Offers entry.1 × (entry.1.name ≡ entry.0)

  abbrev pub MayWrite : String → Type 0
  MayWrite name =
      (dataset : DtoDataset) × Offers dataset × (dataset.name ≡ name) × (dataset.writable ≡ true)

  -- What a mount may be that the datasets give.
  abbrev pub IsGranted : VolumeMount → Type 0
  IsGranted m =
      (m.name ≡ "datasets")
      ⊎ ((dataset : DtoDataset) × Offers dataset
          × (m.name ≡ "dataset-" +++ dataset.name)
          × ((m.read_only ≡ true) ⊎ MayWrite dataset.name))

  -- A dataset as it is applied.
  abbrev IsGrantedDataset : DtoDataset → Type 0
  IsGrantedDataset applied =
      (dataset : DtoDataset) × Offers dataset
      × (dataset.name ≡ applied.name)
      × (applied.writable ≡ true → MayWrite applied.name)

  abbrev AreOffered : DatasetMaps → Type 0
  AreOffered maps =
      All OffersEntry maps.launch
      × All OffersEntry maps.everyone
      × All (λ entry. entry.1.name ≡ entry.0) maps.every

  put_if-All :
      (b : Bool) (dataset : DtoDataset) (entries : List (String × DtoDataset))
      → (b ≡ true → Offers dataset)
      → All OffersEntry entries
      → All OffersEntry (put_if b dataset entries)
  put_if-All true dataset entries q h = All-put OffersEntry _ dataset entries (q refl, refl) h
  put_if-All false dataset entries q h = h

  put_absent-All :
      (found : Option DtoDataset) (dataset : DtoDataset) (entries : List (String × DtoDataset))
      → All (λ entry. entry.1.name ≡ entry.0) entries
      → All (λ entry. entry.1.name ≡ entry.0) (put_absent found dataset entries)
  put_absent-All (some other) dataset entries h = h
  put_absent-All none dataset entries h =
      All-put (λ entry. entry.1.name ≡ entry.0) dataset.name dataset entries refl h

  collect_dataset-AreOffered :
      (group : UserGroup F) (dataset : DtoDataset) (maps : DatasetMaps)
      → In group groups
      → In dataset group.datasets
      → AreOffered maps
      → AreOffered (collect_dataset launch_group group.name dataset maps)
  unfolding collect_dataset
  collect_dataset-AreOffered group dataset maps i k h = (
    put_if-All _ dataset maps.launch
        (λ e. (group, i, inl ((eq_iff group.name launch_group).0 e), k)) h.0,
    put_if-All _ dataset maps.everyone
        (λ e. (group, i, inr ((eq_iff group.name "everyone").0 e), k)) h.1,
    put_absent-All _ dataset maps.every h.2,
  )

  collect_group-AreOffered :
      (group : UserGroup F) (datasets : List DtoDataset) (maps : DatasetMaps)
      → In group groups
      → ((dataset : DtoDataset) → In dataset datasets → In dataset group.datasets)
      → AreOffered maps
      → AreOffered (collect_group launch_group group.name datasets maps)
  unfolding collect_group
  collect_group-AreOffered group [] maps i k h = h
  collect_group-AreOffered group (dataset ∷ datasets) maps i k h =
      collect_group-AreOffered group datasets _ i (λ d j. k d (inr j))
        (collect_dataset-AreOffered group dataset maps i (k dataset (inl refl)) h)

  collect-AreOffered :
      (rest : List (UserGroup F)) (maps : DatasetMaps)
      → ((group : UserGroup F) → In group rest → In group groups)
      → AreOffered maps
      → AreOffered (collect launch_group rest maps)
  unfolding collect
  collect-AreOffered [] maps i h = h
  collect-AreOffered (group ∷ rest) maps i h =
      collect-AreOffered rest _ (λ g j. i g (inr j))
        (collect_group-AreOffered group group.datasets maps (i group (inl refl)) (λ d j. j) h)

  writable-MayWrite :
      (name : String) (entries : List (String × DtoDataset))
      → All OffersEntry entries
      → writable_in name entries ≡ true
      → MayWrite name
  writable-MayWrite name entries h e = elim (Option-cases (lookup name entries)) [
    | inl missing ↦ absurd (false≢true (rw (missing, writable_in) at e))
    | inr (dataset, found) ↦
        let offered = All-lookup OffersEntry name dataset entries h found in
        (dataset, offered.0, offered.1, rw (found, writable_in) at e)
  ]

  key-Offers :
      (name : String) (entries : List (String × DtoDataset))
      → All OffersEntry entries
      → is_key name entries ≡ true
      → (dataset : DtoDataset) × Offers dataset × (dataset.name ≡ name)
  key-Offers name entries h e = elim (Option-cases (lookup name entries)) [
    | inl missing ↦ absurd (false≢true (rw (missing, is_key) at e))
    | inr (dataset, found) ↦
        let offered = All-lookup OffersEntry name dataset entries h found in
        (dataset, offered.0, offered.1)
  ]

  or-true : (a b : Bool) → (a || b) ≡ true → (a ≡ true) ⊎ (b ≡ true)
  or-true a b e = ground arith

  granted-IsGranted :
      (maps : DatasetMaps) (entry : String × DtoDataset) (dataset : DtoDataset)
      → AreOffered maps
      → entry.1.name ≡ entry.0
      → granted_entry maps entry ≡ some dataset
      → IsGrantedDataset dataset
  unfolding granted_entry
  granted-IsGranted maps entry dataset h k e =
      elim (Bool-cases (is_key entry.0 maps.launch || is_key entry.0 maps.everyone)) [
        | inr missing ↦ absurd (none-ne-some dataset (rw missing at e))
        | inl found ↦
            let applied = some-injective _ dataset (rw found at e) in
            let names = k in
            let offered : (o : DtoDataset) × Offers o × (o.name ≡ entry.0) =
              elim (or-true _ _ found) [
                | inl in_launch ↦ key-Offers entry.0 maps.launch h.0 in_launch
                | inr in_everyone ↦ key-Offers entry.0 maps.everyone h.1 in_everyone
              ] in
            let may_write : (writable_in entry.0 maps.launch || writable_in entry.0 maps.everyone)
                  ≡ true
                → MayWrite entry.0 =
              λ w. elim (or-true _ _ w) [
                | inl in_launch ↦ writable-MayWrite entry.0 maps.launch h.0 in_launch
                | inr in_everyone ↦ writable-MayWrite entry.0 maps.everyone h.1 in_everyone
              ] in
            subst IsGrantedDataset applied (
              offered.0,
              offered.1,
              offered.2 ∙ sym names,
              λ w. subst MayWrite (sym names) (may_write w),
            )
      ]

  cons_found-All :
      (found : Option DtoDataset) (datasets : List DtoDataset)
      → ((dataset : DtoDataset) → found ≡ some dataset → IsGrantedDataset dataset)
      → All IsGrantedDataset datasets
      → All IsGrantedDataset (cons_found found datasets)
  cons_found-All (some dataset) datasets f h = (f dataset refl, h)
  cons_found-All none datasets f h = h

  granted_of-All :
      (maps : DatasetMaps) (entries : List (String × DtoDataset))
      → AreOffered maps
      → All (λ entry. entry.1.name ≡ entry.0) entries
      → All IsGrantedDataset (granted_of maps entries)
  unfolding granted_of
  granted_of-All maps [] h k = tt
  granted_of-All maps (entry ∷ entries) h k =
      cons_found-All _ _ (λ dataset. granted-IsGranted maps entry dataset h k.0)
        (granted_of-All maps entries h k.1)

  module _ (range : List (String × DtoDataset) → List (String × DtoDataset)) where
    granted_datasets-All :
        ((Q : String × DtoDataset → Type 0) (entries : List (String × DtoDataset))
          → All Q entries
          → All Q (range entries))
        → All IsGrantedDataset (granted_datasets range groups launch_group)
    unfolding granted_datasets
    granted_datasets-All shows =
        let offered = collect-AreOffered groups no_datasets (λ g i. i) (tt, tt, tt) in
        granted_of-All _ _ offered (shows (λ entry. entry.1.name ≡ entry.0) _ offered.2)

module _ {F Q : Type 0} (launch_group : String) (groups : List (UserGroup F))
    (range : List (String × DtoDataset) → List (String × DtoDataset)) where
  -- After applyDatasets, each mount of the spawner is one that it had, the directory of the datasets,
  -- or of a dataset that the launch group or the group everyone has, which may be written to only if
  -- one of those groups has a writable dataset of the name; given that a `range` shows only the
  -- entries of the map.
  pub apply_datasets-IsGranted :
      (casing : Casing) (size_limit : Q) (working_dir : String) (spawner : Spawner Q)
      (R : VolumeMount → Type 0)
      → ((P : String × DtoDataset → Type 0) (entries : List (String × DtoDataset))
          → All P entries
          → All P (range entries))
      → All R spawner.volume_mounts
      → All
          (λ m. R m ⊎ IsGranted launch_group groups m)
          (apply_datasets range casing size_limit groups launch_group working_dir
            spawner).volume_mounts
  unfolding apply_datasets apply_volume_for_dataset_dir apply_empty_dir_volume mount add_symlink
      Mounts
  apply_datasets-IsGranted casing size_limit working_dir spawner R shows h =
      let allowed =
        All-map _ (granted_datasets range groups launch_group)
          (λ applied (d, offered, named, writes) m of_dataset. inr (
            inr (
              d,
              offered,
              of_dataset.0 ∙ ap (λ name. "dataset-" +++ name) (sym named),
              elim (Bool-cases m.read_only) [
                | inl shut ↦ inl shut
                | inr free ↦
                    inr (
                      subst (MayWrite launch_group groups) (sym named) (writes (of_dataset.1 free)))
              ],
            )))
          (granted_datasets-All launch_group groups range shows) in
      All-append _ _ _
        (apply_each-Mounts casing (λ m. R m ⊎ IsGranted launch_group groups m)
          (granted_datasets range groups launch_group) spawner allowed
          (All-map _ spawner.volume_mounts (λ m. inl) h))
        (inr (inl refl), tt)
