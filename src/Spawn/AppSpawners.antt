-- ===== src/Spawn/AppSpawners.antt =====
-- The spawner of an application mounts only volumes that it has.
use Prim.Native.String.{◌++◌ as ◌+++◌}
use primehub_controller.Numeric.{Numeric}
use primehub_controller.Spawn.Mounts.{
  has_volume-before, has_volume, IsClosed, mount-IsReady, IsReady, IsReady-Steps,
}
use primehub_controller.Spawn.Steps.{
  AreKept, if_keeps, apply_volume_for_group_keeps, apply_volume_for_phfs_keeps, apply_each_keeps,
  apply_volume_for_dataset_dir_keeps,
}
use primehub_controller.GoText.{is_empty, Casing}
use primehub_controller.Spawn.{empty_dir, claim, SpawnerOptions, Spawner, new_spawner}
use primehub_controller.Spawn.Resources.{apply_node_selector, apply_tolerations}
use primehub_controller.Prelude.{
  false, List-cases, str_eq_refl, some, All-append, inr, inl, not, Bool-cases, if◌then◌else◌, true,
  subst, Bool, ◌≡◌, ◌&&◌, [], ◌∷◌, refl, String, List,
}
use primehub_controller.Graphql.{UserGroup, DtoDataset}
use primehub_controller.Quota.{DtoInstanceType}
use primehub_controller.Spawn.Constructors.{
  app_spawner, new_spawner_for_ph_application, apply_app_root, prime_hub_app_root, app_volumes,
}
use primehub_controller.Spawn.Volumes.{
  volume_name, flag, link_home, add_symlink, mount, apply_volume_for_group,
  apply_volume_for_app_root, at_path, apply_empty_dir_volume,
}
use primehub_controller.Spawn.Granted.{merge_dataset}
use primehub_controller.Spawn.Build.{patch_pod_spec, PodSpec}
use primehub_controller.Spawn.Closed.{patch_pod_spec-IsClosed}
use primehub_controller.Spawn.Spawners.{new_spawner-IsReady, resources-IsReady}

module _ ⦃api : Numeric⦄ where
  open api use {Quantity, Float}

  module _ (casing : Casing) (range : List (String × DtoDataset) → List (String × DtoDataset))
      (megabyte : Quantity) where
    apply_volume_for_app_root-IsReady :
        (group_name app_root app_id name : String) (spawner : Spawner Quantity)
        → IsReady spawner
        → has_volume
            (if is_empty name then "project-" +++ volume_name casing group_name else name)
            spawner.volumes
          ≡ true
        → IsReady (apply_volume_for_app_root casing group_name app_root app_id name spawner)
    unfolding apply_volume_for_app_root IsReady
    apply_volume_for_app_root-IsReady group_name app_root app_id name spawner h named =
        elim (Bool-cases (is_empty name)) [
          | inl unnamed ↦ rw unnamed (
            All-append _ spawner.volume_mounts _ h.0 (
              subst
                  (λ b.
                    has_volume (if b then "project-" +++ volume_name casing group_name else name)
                      spawner.volumes
                    ≡ true)
                  unnamed named,
              tt,
            ),
            h.1,
            h.2,
          )
          | inr is_named ↦ rw is_named (
            All-append _ spawner.volume_mounts _ h.0 (
              subst
                  (λ b.
                    has_volume (if b then "project-" +++ volume_name casing group_name else name)
                      spawner.volumes
                    ≡ true)
                  is_named named,
              tt,
            ),
            h.1,
            h.2,
          )
        ]

    link_home-volumes :
        (b : Bool) (path dir : String) (spawner : Spawner Quantity)
        → (link_home casing b path dir spawner).volumes ≡ spawner.volumes
    unfolding add_symlink
    link_home-volumes b path dir spawner = elim (Bool-cases (b && not (is_empty dir))) [
      | inl linked ↦ rw linked refl
      | inr left_out ↦ rw left_out refl
    ]

    -- The volume of the group of an application that shares one.
    group_volume-named :
        (group : UserGroup Float) (spawner : Spawner Quantity)
        → group.enabled_shared_volume ≡ true
        → has_volume
            ("project-" +++ volume_name casing group.name)
            (apply_volume_for_group casing group.name group "" spawner).volumes
          ≡ true
    unfolding apply_volume_for_group mount
    group_volume-named group spawner on =
        let name = "project-" +++ volume_name casing group.name in
        let named : has_volume {Q = Quantity} name
              (record { name = name; source = claim name } ∷ [])
            ≡ true =
          rw (str_eq_refl name) refl in
        rw (on, str_eq_refl group.name, link_home-volumes (flag group.home_symlink true) _ _ _)
          (has_volume-before name _ spawner.volumes named)

    apply_app_root-IsReady :
        (five_gibibytes : Quantity) (app_id : String) (group : UserGroup Float)
        (app_root root : String) (shared : Bool) (spawner : Spawner Quantity)
        → group.enabled_shared_volume ≡ shared
        → IsReady spawner
        → IsReady (
            apply_app_root casing range megabyte five_gibibytes app_id group app_root root shared
              spawner)
    unfolding apply_app_root apply_empty_dir_volume mount
    apply_app_root-IsReady five_gibibytes app_id group app_root root true spawner on h =
        let based =
          apply_volume_for_group_keeps IsReady IsReady-Steps casing group.name group "" spawner h in
        if_keeps IsReady (not (is_empty app_root)) _ _
          (apply_volume_for_app_root-IsReady group.name app_root app_id "" _ based
            (group_volume-named group spawner on))
          based
    apply_app_root-IsReady five_gibibytes app_id group app_root root false spawner off h =
        let based =
          mount-IsReady (empty_dir five_gibibytes) (at_path root "primehub-app-root") spawner h in
        if_keeps IsReady (not (is_empty app_root)) _ _
          (apply_volume_for_app_root-IsReady group.name app_root app_id "primehub-app-root" _ based
            (has_volume-before "primehub-app-root" _ spawner.volumes refl))
          based

    app_volumes-IsReady :
        (five_gibibytes : Quantity) (app_id : String) (group : UserGroup Float)
        (global_datasets : List DtoDataset) (app_root : String) (options : SpawnerOptions Quantity)
        (spawner : Spawner Quantity)
        → IsReady spawner
        → IsReady (
            app_volumes casing range megabyte five_gibibytes app_id group global_datasets app_root
              options spawner)
    unfolding app_volumes
    app_volumes-IsReady five_gibibytes app_id group global_datasets app_root options spawner h =
        let root = prime_hub_app_root casing group app_id in
        let rooted =
          apply_app_root-IsReady five_gibibytes app_id group app_root root
            group.enabled_shared_volume spawner refl h in
        apply_volume_for_dataset_dir_keeps IsReady IsReady-Steps casing megabyte root _ (
          apply_each_keeps IsReady IsReady-Steps casing
            (merge_dataset range group.datasets global_datasets) _
            (if_keeps IsReady options.phfs_enabled _ _
              (apply_volume_for_phfs_keeps IsReady IsReady-Steps casing group.name options.phfs_pvc
                root _ rooted)
              rooted))

    new_spawner_for_ph_application-AreReady :
        (five_gibibytes : Quantity) (app_id primehub_url : String) (group : UserGroup Float)
        (instance_type : DtoInstanceType Float) (global_datasets : List DtoDataset)
        (spec : PodSpec Quantity) (app_root : String) (options : SpawnerOptions Quantity)
        → AreKept IsReady (
            new_spawner_for_ph_application casing range megabyte five_gibibytes app_id primehub_url
              group instance_type global_datasets spec app_root options)
    unfolding new_spawner_for_ph_application app_spawner apply_tolerations apply_node_selector
        IsReady
    new_spawner_for_ph_application-AreReady five_gibibytes app_id primehub_url group instance_type
          global_datasets spec app_root options =
        let ready = resources-IsReady instance_type _ (
          app_volumes-IsReady five_gibibytes app_id group global_datasets app_root options
            new_spawner new_spawner-IsReady) in
        elim (List-cases spec.containers) [
          | inl empty ↦ rw empty tt
          | inr (container, others, given) ↦ rw given ready
        ]

    -- Where NewSpawnerForPhApplication does not panic, a pod whose containers mount only its volumes is
    -- such a pod after PatchPodSpec.
    pub new_spawner_for_ph_application-IsClosed :
        (five_gibibytes : Quantity) (app_id primehub_url : String) (group : UserGroup Float)
        (instance_type : DtoInstanceType Float) (global_datasets : List DtoDataset)
        (spec : PodSpec Quantity) (app_root : String) (options : SpawnerOptions Quantity)
        (spawner : Spawner Quantity) (pod : PodSpec Quantity)
        → new_spawner_for_ph_application casing range megabyte five_gibibytes app_id primehub_url
            group instance_type global_datasets spec app_root options
          ≡ some spawner
        → IsClosed pod
        → IsClosed (patch_pod_spec spawner pod)
    new_spawner_for_ph_application-IsClosed five_gibibytes app_id primehub_url group instance_type
          global_datasets spec app_root options spawner pod e closed =
        let ready =
          new_spawner_for_ph_application-AreReady five_gibibytes app_id primehub_url group
            instance_type global_datasets spec app_root options in
        patch_pod_spec-IsClosed spawner pod (subst (AreKept IsReady) e ready) closed
