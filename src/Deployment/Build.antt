-- ===== src/Deployment/Build.antt =====
-- ee/controllers/phdeployment_controller.go: buildDeployment, and the resources of its containers.
use primehub_controller.Prelude.{
  List, Option, Result, String, ℤ, [], ◌∷◌, some, none, ok, err, if◌then◌else◌, Error, ◌>>=◌, ◌-ℤ◌,
  ltb_ℤ, pos, lookup, put,
}
use primehub_controller.Numeric.{Numeric, ResourceList}
use primehub_controller.GoText.{Casing, is_empty}
use primehub_controller.GoText.Search.{has_prefix}
use primehub_controller.Escapism.{Unicode}
use primehub_controller.Airgap.{patch_images}
use primehub_controller.Graphql.{DtoUser}
use primehub_controller.Kube.{ObjectKey, Toleration}
use primehub_controller.Spawn.{Container, Spawner}
use primehub_controller.Spawn.Constructors.{new_spawner_for_model_deployment}
use primehub_controller.Deployment.{PhDeploymentSpec}
use primehub_controller.Deployment.ModelVolumes.{ModelVolume, Settings, Storage, Mlflow}
use primehub_controller.Deployment.Storage.{model_storage}
use primehub_controller.Deployment.Containers.{
  PredictorSpec, labels_of, build_model_container, build_seldon_predictor, engine_container,
}

-- appsv1.DeploymentSpec
pub record DeploymentSpec (Q : Type 0) : Type 0 where
  pub replicas : ℤ
  pub selector : List (String × String)
  pub labels : List (String × String)
  pub annotations : List (String × String)
  pub node_selector : List (String × String)
  pub tolerations : List Toleration
  pub image_pull_secrets : List String
  pub init_containers : List (Container Q)
  pub containers : List (Container Q)
  pub volumes : List ModelVolume

-- What the code uses of other packages: MilliValue and Value of a quantity, the conversions of
-- int64(float64(n) * 0.1), json.Marshal of a map of texts, and the JSON of a predictor in base64.
pub record Tools (Q : Type 0) : Type 0 where
  pub milli_value : Q → ℤ
  pub value : Q → ℤ
  pub tenth : ℤ → ℤ
  pub marshal_map : List (String × String) → String
  pub encode_predictor : PredictorSpec Q → Result String

-- The answers of FetchByUserId: the user for the container and for the selectors, and the groups with
-- their Mlflow settings.
pub record Fetched (F : Type 0) : Type 0 where
  pub for_container : Result (DtoUser F)
  pub for_selectors : Result (DtoUser F)
  pub for_mlflow : Result (List (String × Option Mlflow))
  pub set_reference_error : Option Error

-- int64(math.Max(float64(n) * 0.1, least))
unfoldable pub engine_share : (ℤ → ℤ) → ℤ → ℤ → ℤ
engine_share tenth least n = if ltb_ℤ (tenth n) least then least else tenth n

abbrev pub first_gpu : {Q : Type 0} → ResourceList Q → Option (String × Q)
first_gpu [] = none
first_gpu (entry ∷ limits) =
    let rest = first_gpu limits in if has_prefix entry.0 "gpu.intel.com/" then some entry else rest

-- func getGpuFromLimits
unfoldable pub get_gpu_from_limits : {Q : Type 0} → ResourceList Q → Option (String × Q)
get_gpu_from_limits limits = elim (lookup "nvidia.com/gpu" limits) [
  | some quantity ↦ some ("nvidia.com/gpu", quantity)
  | none ↦ elim (lookup "amd.com/gpu" limits) [
    | some quantity ↦ some ("amd.com/gpu", quantity)
    | none ↦ first_gpu limits
  ]
]

abbrev pub replicas_of : PhDeploymentSpec → ℤ
replicas_of spec = if spec.stop then pos 0 else spec.predictor.replicas

module _ ⦃api : Numeric⦄ (casing : Casing) (settings : Settings) where
  open api use {Quantity, Float}

  module _ (tools : Tools Quantity) where
    abbrev pub resources : ℤ → ℤ → ResourceList Quantity
    resources cpu memory = ("cpu", api.of_milli cpu) ∷ ("memory", api.of_int memory) ∷ []

    -- The processor time of the engine container.
    unfoldable pub engine_cpu : Container Quantity → ℤ
    engine_cpu model =
        engine_share tools.tenth (pos 300) (tools.milli_value (api.limit_cpu model.limits))

    -- The memory of the engine container, at least 250 * 1024 * 1024.
    unfoldable pub engine_memory : Container Quantity → ℤ
    engine_memory model =
        engine_share tools.tenth (pos 262144000) (tools.value (api.limit_memory model.limits))

    -- What is left of the processor time, in thousandths.
    unfoldable pub model_cpu : Container Quantity → ℤ
    model_cpu model = tools.milli_value (api.limit_cpu model.limits) -ℤ engine_cpu model

    -- What is left of the memory.
    unfoldable pub model_memory : Container Quantity → ℤ
    model_memory model = tools.value (api.limit_memory model.limits) -ℤ engine_memory model

    abbrev pub with_gpu : Option (String × Quantity) → ResourceList Quantity → ResourceList Quantity
    with_gpu none resources = resources
    with_gpu (some (name, quantity)) resources = put name quantity resources

    abbrev pub with_resources : ResourceList Quantity → Container Quantity → Container Quantity
    with_resources resources container = record container {
      requests = resources;
      limits = resources;
    }

    -- adjustResourcesToFitConstraint for the engine container.
    unfoldable pub adjusted_engine : Container Quantity → Container Quantity → Container Quantity
    adjusted_engine engine model =
        with_resources (resources (engine_cpu model) (engine_memory model)) engine

    -- adjustResourcesToFitConstraint for the model container.
    unfoldable pub adjusted_model : Container Quantity → Container Quantity
    adjusted_model model =
        with_resources
          (with_gpu (get_gpu_from_limits model.limits)
            (resources (model_cpu model) (model_memory model)))
          model

    unfoldable pub usage_annotation : String → PhDeploymentSpec → String
    usage_annotation name spec = tools.marshal_map (
        ("component", "model_deploy")
        ∷ ("component_name", name)
        ∷ ("instance_type", spec.predictor.instance_type)
        ∷ ("group", spec.group_name)
        ∷ [])

    abbrev secrets : String → List String
    secrets name = if is_empty name then [] else name ∷ []

    -- The deployment of the containers and the storage.
    unfoldable pub assembled :
        Unicode
        → ObjectKey
        → PhDeploymentSpec
        → Container Quantity
        → Container Quantity
        → Spawner Quantity
        → Storage Quantity
        → DeploymentSpec Quantity
    assembled tables key spec model engine spawner storage = record {
      replicas = replicas_of spec;
      selector = labels_of tables key.name spec.group_name;
      labels = labels_of tables key.name spec.group_name;
      annotations =
          ("prometheus.io/path", "prometheus")
          ∷ ("prometheus.io/port", "8000")
          ∷ ("prometheus.io/scrape", "true")
          ∷ ("primehub.io/usage", usage_annotation key.name spec)
          ∷ [];
      node_selector = spawner.node_selector;
      tolerations = spawner.tolerations;
      image_pull_secrets = secrets spec.predictor.image_pull_secret;
      init_containers = patch_images settings.image_prefix storage.init_containers;
      containers =
          patch_images settings.image_prefix
            (adjusted_model model ∷ adjusted_engine engine model ∷ []);
      volumes = storage.volumes;
    }

    -- What buildDeployment has before it looks at the URI of the model.
    abbrev pub Parts : Type 0
    Parts = Container Quantity × Container Quantity × Spawner Quantity

    unfoldable pub build_parts :
        Unicode → ObjectKey → PhDeploymentSpec → Fetched Float → Result Parts
    build_parts tables key spec fetched = do
      model ← build_model_container casing settings key.name spec fetched.for_container
      encoded ←
          tools.encode_predictor (build_seldon_predictor casing settings tables key.name spec model)
      user ← fetched.for_selectors
      spawner ←
          new_spawner_for_model_deployment user spec.group_name spec.predictor.instance_type
            spec.predictor.model_image
      ok (model, engine_container casing settings key encoded, spawner)

    abbrev pub referenced :
        Option Error → DeploymentSpec Quantity → Result (DeploymentSpec Quantity)
    referenced none deployment = ok deployment
    referenced (some e) deployment = err e

    abbrev pub with_storage :
        Unicode
        → ObjectKey
        → PhDeploymentSpec
        → Fetched Float
        → Parts
        → Option (Result (Storage Quantity))
        → Option (Result (DeploymentSpec Quantity))
    with_storage tables key spec fetched parts none = none
    with_storage tables key spec fetched parts (some (err e)) = some (err e)
    with_storage tables key spec fetched (model, engine, spawner) (some (ok storage)) = some (
        referenced fetched.set_reference_error
          (assembled tables key spec model engine spawner storage))

    abbrev pub from_parts :
        Unicode
        → ObjectKey
        → PhDeploymentSpec
        → Fetched Float
        → Result Parts
        → Option (Result (DeploymentSpec Quantity))
    from_parts tables key spec fetched (err e) = some (err e)
    from_parts tables key spec fetched (ok parts) =
        with_storage tables key spec fetched parts (
          model_storage casing settings spec.group_name spec.predictor.model_uri fetched.for_mlflow)

    -- func buildDeployment; `none` is a panic.
    unfoldable pub build_deployment :
        Unicode
        → ObjectKey
        → PhDeploymentSpec
        → Fetched Float
        → Option (Result (DeploymentSpec Quantity))
    build_deployment tables key spec fetched =
        from_parts tables key spec fetched (build_parts tables key spec fetched)
