-- ===== src/Deployment/ClosedBuild.antt =====
-- The pods of buildDeployment.
use primehub_controller.Prelude.{
  Option, Result, [], ◌∷◌, some, none, ok, err, ◌≡◌, refl, sym, ap, subst, bind-ok, ok_injective,
  Error,
}
use primehub_controller.Numeric.{Numeric}
use primehub_controller.GoText.{Casing}
use primehub_controller.Escapism.{Unicode}
use primehub_controller.Kube.{ObjectKey}
use primehub_controller.Spawn.{Container}
use primehub_controller.Deployment.{PhDeploymentSpec}
use primehub_controller.Deployment.ModelVolumes.{Settings, Storage, plain_mount}
use primehub_controller.Deployment.Containers.{
  build_seldon_predictor, build_model_container, model_container, engine_container, model_mounts,
}
use primehub_controller.Deployment.Build.{
  DeploymentSpec, Tools, Fetched, Parts, build_parts, assembled, referenced, with_storage,
  from_parts, build_deployment, adjusted_model, adjusted_engine,
}
use primehub_controller.Deployment.Known.{AllKnown}
use primehub_controller.Deployment.Closed.{AreServed, IsServed, model_storage-AreServed}
use primehub_controller.Deployment.Mounts.{
  AreClosed, IsClosedDeployment, model_mounts-AllKnown, patch_images-AllKnown,
}
use primehub_controller.Spawn.Constructors.{new_spawner_for_model_deployment}

module _ ⦃api : Numeric⦄ (casing : Casing) (settings : Settings) (tools : Tools api.Quantity)
    (tables : Unicode) (key : ObjectKey) (spec : PhDeploymentSpec)
    (fetched : Fetched api.Float) where
  open api use {Quantity, Float}

  -- The mounts of the two containers before the storage is known.
  unfoldable HaveMounts : Parts casing settings tools → Type 0
  HaveMounts (model, engine, spawner) =
      (model.volume_mounts ≡ model_mounts casing spec)
      × (engine.volume_mounts ≡ plain_mount "/etc/podinfo" "podinfo" ∷ [])

  build_model_container-mounts :
      (model : Container Quantity)
      → build_model_container casing settings key.name spec fetched.for_container ≡ ok model
      → model.volume_mounts ≡ model_mounts casing spec
  unfolding build_model_container model_container
  build_model_container-mounts model e =
      let (user, found, then_user) = bind-ok fetched.for_container _ model e in
      let (spawner, spawned, then_spawner) =
        bind-ok
          (new_spawner_for_model_deployment user spec.group_name spec.predictor.instance_type
            spec.predictor.model_image)
          _ model then_user in
      ap (λ c. c.volume_mounts) (sym (ok_injective then_spawner))

  build_parts-HaveMounts :
      (parts : Parts casing settings tools)
      → build_parts casing settings tools tables key spec fetched ≡ ok parts
      → HaveMounts parts
  unfolding build_parts engine_container HaveMounts
  build_parts-HaveMounts parts e =
      let (model, is_model, then_model) =
        bind-ok (build_model_container casing settings key.name spec fetched.for_container) _ parts
          e in
      let (encoded, is_encoded, then_encoded) =
        bind-ok
          (tools.encode_predictor
            (build_seldon_predictor casing settings tables key.name spec model))
          _ parts then_model in
      let (user, is_user, then_user) = bind-ok fetched.for_selectors _ parts then_encoded in
      let (spawner, is_spawner, then_spawner) =
        bind-ok
          (new_spawner_for_model_deployment user spec.group_name spec.predictor.instance_type
            spec.predictor.model_image)
          _ parts then_user in
      subst HaveMounts (ok_injective then_spawner)
        (build_model_container-mounts model is_model, refl)

  assembled-IsClosed :
      (parts : Parts casing settings tools) (storage : Storage Quantity)
      → HaveMounts parts
      → IsServed spec.predictor.model_uri storage
      → IsClosedDeployment
          (assembled casing settings tools tables key spec parts.0 parts.1 parts.2 storage)
  unfolding assembled IsClosedDeployment HaveMounts IsServed adjusted_model adjusted_engine
  assembled-IsClosed parts storage mounts served = (
    patch_images-AllKnown storage.volumes settings.image_prefix _ (
      subst (AllKnown storage.volumes) (sym mounts.0)
          (model_mounts-AllKnown casing spec storage served),
      (subst (AllKnown storage.volumes) (sym mounts.1) (served.1, tt), tt),
    ),
    patch_images-AllKnown storage.volumes settings.image_prefix storage.init_containers served.0,
  )

  with_storage-AreClosed :
      (parts : Parts casing settings tools) (o : Option (Result (Storage Quantity)))
      → HaveMounts parts
      → AreServed spec.predictor.model_uri o
      → AreClosed (with_storage casing settings tools tables key spec fetched parts o)
  unfolding AreServed AreClosed
  with_storage-AreClosed parts none mounts served = tt
  with_storage-AreClosed parts (some (err e)) mounts served = tt
  with_storage-AreClosed parts (some (ok storage)) mounts served =
      referenced-AreClosed fetched.set_reference_error _
        (assembled-IsClosed parts storage mounts served)
    where
      referenced-AreClosed :
          (o : Option Error) (built : DeploymentSpec Quantity)
          → IsClosedDeployment built
          → AreClosed (some (referenced casing settings tools o built))
      referenced-AreClosed none built h = h
      referenced-AreClosed (some x) built h = tt

  from_parts-AreClosed :
      (r : Result (Parts casing settings tools))
      → build_parts casing settings tools tables key spec fetched ≡ r
      → AreClosed (from_parts casing settings tools tables key spec fetched r)
  unfolding AreClosed
  from_parts-AreClosed (err x) e = tt
  from_parts-AreClosed (ok parts) e =
      with_storage-AreClosed parts _ (build_parts-HaveMounts parts e) (
        model_storage-AreServed Quantity spec.predictor.model_uri casing settings spec.group_name
          fetched.for_mlflow)

  -- Each container and init container of a deployment that buildDeployment returns mounts only volumes of
  -- the deployment, wherever its model comes from.
  pub build_deployment-IsClosed :
      (built : DeploymentSpec Quantity)
      → build_deployment casing settings tools tables key spec fetched ≡ some (ok built)
      → IsClosedDeployment built
  unfolding build_deployment AreClosed
  build_deployment-IsClosed built e =
      subst AreClosed e
        (from_parts-AreClosed (build_parts casing settings tools tables key spec fetched) refl)
