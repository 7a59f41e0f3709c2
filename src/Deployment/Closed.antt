-- ===== src/Deployment/Closed.antt =====
-- The storage of a model deployment has the volumes that its containers mount.
use mathlib.Core.Bool.{true≢false}
use primehub_controller.Prelude.{
  List, Option, Result, String, [], ◌∷◌, ◌++◌, ◌||◌, not, false, true, some, none, ok, err, ◌≡◌,
  ◌⊎◌, refl, sym, ap, ◌∙◌, Bool-cases, All, All-append, inl, inr, subst, str_eq_refl,
}
use primehub_controller.GoText.{Casing, is_empty}
use primehub_controller.GoText.Search.{has_prefix}
use primehub_controller.Spawn.{Container, VolumeMount}
use primehub_controller.Deployment.Phases.{if-Means}
use primehub_controller.Deployment.ModelVolumes.{
  group_claim, ModelVolume, Settings, Storage, Mlflow, goes_on, model_mount, group_volume,
  no_storage, extract_nfs_config, volume, empty_directory,
}
use primehub_controller.Deployment.Storage.{
  after_phfs, from_mlflow, found_server, model_storage, phfs_step, nfs_step, init_step, with_server,
  after_nfs,
}
use primehub_controller.Deployment.Known.{
  has_model_volume, AllKnown, has-after, has-before, nfs-goes_on, Mounted, Mounted-after, or_after,
  known_mounts,
}

module _ {Q : Type 0} (uri : String) where
  -- What is known before the init container is built.
  unfoldable IsReady : Storage Q → Type 0
  IsReady storage =
      Mounted storage.volumes storage.mounts
      × (has_model_volume "podinfo" storage.volumes ≡ true)
      × ((goes_on uri "phfs" ≡ false) ⊎ (has_model_volume "phfs" storage.volumes ≡ true))

  unfoldable AfterPhfs : Result (Storage Q) → Type 0
  AfterPhfs (err e) = Unit
  AfterPhfs (ok storage) =
      IsReady storage × ((storage.uri ≡ uri) ⊎ (has_prefix uri "nfs://" ≡ false))

  unfoldable IsFound : Storage Q → Type 0
  IsFound storage =
      IsReady storage
      × ((has_prefix uri "nfs://" ≡ false) ⊎ (has_model_volume "nfs" storage.volumes ≡ true))

  unfoldable AfterNfs : Option (Result (Storage Q)) → Type 0
  AfterNfs none = Unit
  AfterNfs (some (err e)) = Unit
  AfterNfs (some (ok storage)) = IsFound storage

  -- What the pod has of the model: the volumes of the model container, and those of the init container.
  unfoldable pub IsServed : Storage Q → Type 0
  IsServed storage =
      All (λ container. AllKnown storage.volumes container.volume_mounts) storage.init_containers
      × (has_model_volume "podinfo" storage.volumes ≡ true)
      × ((is_empty uri ≡ true)
          ⊎ ((has_model_volume "model-storage" storage.volumes ≡ true)
              × ((goes_on uri "phfs" ≡ false) ⊎ (has_model_volume "phfs" storage.volumes ≡ true))
              × ((has_prefix uri "nfs://" ≡ false)
                  ⊎ (has_model_volume "nfs" storage.volumes ≡ true))))

  unfoldable pub AreServed : Option (Result (Storage Q)) → Type 0
  AreServed none = Unit
  AreServed (some (err e)) = Unit
  AreServed (some (ok storage)) = IsServed storage

  module _ (casing : Casing) (settings : Settings) (group_name : String) where
    phfs_step-AfterPhfs :
        (storage : Storage Q)
        → Mounted storage.volumes storage.mounts
        → has_model_volume "podinfo" storage.volumes ≡ true
        → storage.uri ≡ uri
        → AfterPhfs (phfs_step casing settings group_name storage)
    unfolding phfs_step AfterPhfs IsReady
    phfs_step-AfterPhfs storage mounted info same =
        if-Means (goes_on storage.uri "phfs") AfterPhfs _ _
          (λ in_group.
            if-Means (not settings.phfs_enabled || is_empty settings.phfs_pvc) AfterPhfs _ _
              (λ off. tt)
              (λ on. (
                (
                  All-append _ storage.mounts _
                      (Mounted-after storage.volumes _ storage.mounts mounted)
                      (inr (has-before "phfs" storage.volumes _ refl), tt),
                  has-after "podinfo" storage.volumes _ info,
                  inr (has-before "phfs" storage.volumes _ refl),
                ),
                inr (not_nfs in_group),
              )))
          (λ elsewhere.
            ((mounted, info, inl (subst (λ u. goes_on u "phfs" ≡ false) same elsewhere)), inl same))
      where
        not_nfs : goes_on storage.uri "phfs" ≡ true → has_prefix uri "nfs://" ≡ false
        not_nfs in_group = elim (Bool-cases (has_prefix uri "nfs://")) [
          | inr absent ↦ absent
          | inl nfs ↦
              absurd (
                true≢false (sym in_group ∙ (ap (λ u. goes_on u "phfs") same ∙ nfs-goes_on uri nfs)))
        ]

    with_server-AfterNfs :
        (storage : Storage Q) (found : Result (String × String))
        → IsReady storage
        → AfterNfs (some (with_server casing settings group_name storage found))
    unfolding AfterNfs IsFound IsReady
    with_server-AfterNfs storage (err e) h = tt
    with_server-AfterNfs storage (ok (server, path)) h = (
      (
        All-append _ storage.mounts _ (Mounted-after storage.volumes _ storage.mounts h.0)
            (inr (has-before "nfs" storage.volumes _ refl), tt),
        has-after "podinfo" storage.volumes _ h.1,
        or_after "phfs" (goes_on uri "phfs") storage.volumes _ h.2,
      ),
      inr (has-before "nfs" storage.volumes _ refl),
    )

    nfs_step-AfterNfs :
        (storage : Storage Q)
        → IsReady storage
        → (storage.uri ≡ uri) ⊎ (has_prefix uri "nfs://" ≡ false)
        → AfterNfs (nfs_step casing settings group_name storage)
    unfolding nfs_step AfterNfs IsFound
    nfs_step-AfterNfs storage h kept =
        if-Means (has_prefix storage.uri "nfs://") AfterNfs _ _
          (λ nfs. found-AfterNfs (extract_nfs_config storage.uri))
          (λ other. (
            h,
            elim kept [
              | inl same ↦ inl (subst (λ u. has_prefix u "nfs://" ≡ false) same other)
              | inr absent ↦ inl absent
            ],
          ))
      where
        found-AfterNfs :
            (o : Option (Result (String × String)))
            → AfterNfs (found_server casing settings group_name storage o)
        found-AfterNfs none = tt
        found-AfterNfs (some found) = with_server-AfterNfs storage found h

    -- The storage once its init container mounts only its volumes.
    served :
        (storage : Storage Q) (mounts : List VolumeMount) (container : Container Q)
        (others : List ModelVolume)
        → IsFound storage
        → container.volume_mounts ≡ mounts
        → Mounted (storage.volumes ++ others) mounts
        → has_model_volume "model-storage" others ≡ true
        → IsServed (record storage {
          mounts = mounts;
          init_containers = container ∷ [];
          volumes = storage.volumes ++ others;
        })
    unfolding IsFound IsReady IsServed
    served storage mounts container others h same mounted scratch =
        let present = has-before "model-storage" storage.volumes others scratch in
        (
          (
            subst (AllKnown (storage.volumes ++ others)) (sym same)
                (known_mounts _ mounts present mounted),
            tt,
          ),
          has-after "podinfo" storage.volumes others h.0.1,
          inr (
            present,
            or_after "phfs" (goes_on uri "phfs") storage.volumes others h.0.2,
            or_after "nfs" (has_prefix uri "nfs://") storage.volumes others h.1,
          ),
        )

    from_mlflow-AreServed :
        (storage : Storage Q) (fetched : Result (List (String × Option Mlflow)))
        → IsFound storage
        → AreServed (some (from_mlflow casing settings group_name storage fetched))
    unfolding AreServed IsFound IsReady
    from_mlflow-AreServed storage (err e) h = tt
    from_mlflow-AreServed storage (ok groups) h =
        let name = group_volume casing group_name in
        let others = volume name (group_claim name) ∷ volume "model-storage" empty_directory ∷ [] in
        let present : has_model_volume name others ≡ true = rw (str_eq_refl name) refl in
        served storage _ _ others h refl
          (All-append _ storage.mounts _ (Mounted-after storage.volumes others storage.mounts h.0.0)
            (inr (has-before name storage.volumes others present), tt))
          (has-before "model-storage" (volume name (group_claim name) ∷ [])
            (volume "model-storage" empty_directory ∷ []) refl)

    init_step-AreServed :
        (storage : Storage Q) (fetched : Result (List (String × Option Mlflow)))
        → IsFound storage
        → AreServed (some (init_step casing settings group_name fetched storage))
    unfolding init_step AreServed IsFound IsReady
    init_step-AreServed storage fetched h =
        if-Means (goes_on storage.uri "models:/") (λ r. AreServed (some r)) _ _
          (λ registered. from_mlflow-AreServed storage fetched h)
          (λ plain.
            served storage storage.mounts _ _ h refl
              (Mounted-after storage.volumes _ storage.mounts h.0.0) refl)

    after_nfs-AreServed :
        (fetched : Result (List (String × Option Mlflow))) (o : Option (Result (Storage Q)))
        → AfterNfs o
        → AreServed (after_nfs casing settings group_name fetched o)
    unfolding AreServed AfterNfs
    after_nfs-AreServed fetched none h = tt
    after_nfs-AreServed fetched (some (err e)) h = tt
    after_nfs-AreServed fetched (some (ok storage)) h = init_step-AreServed storage fetched h

    after_phfs-AreServed :
        (fetched : Result (List (String × Option Mlflow))) (r : Result (Storage Q))
        → AfterPhfs r
        → AreServed (after_phfs casing settings group_name fetched r)
    unfolding AreServed AfterPhfs
    after_phfs-AreServed fetched (err e) h = tt
    after_phfs-AreServed fetched (ok storage) h =
        after_nfs-AreServed fetched _ (nfs_step-AfterNfs storage h.0 h.1)

pub model_storage-AreServed :
    (Q : Type 0) (uri : String) (casing : Casing) (settings : Settings) (group_name : String)
    (fetched : Result (List (String × Option Mlflow)))
    → AreServed {Q = Q} uri (model_storage casing settings group_name uri fetched)
unfolding model_storage AreServed IsServed
model_storage-AreServed Q uri casing settings group_name fetched =
    if-Means (is_empty uri) (AreServed {Q = Q} uri) _ _ (λ empty. (tt, refl, inl empty))
      (λ given. after_phfs-AreServed uri casing settings group_name fetched _ (
        phfs_step-AfterPhfs uri casing settings group_name
          (record (no_storage uri) { mounts = model_mount ∷ [] }) (inl refl, tt) refl refl))
