-- ===== src/Deployment/Containers.antt =====
-- ee/controllers/phdeployment_controller.go: the model container and the engine container. Their probes,
-- ports and policies, which are constants, are not modelled.
use Prim.Native.String.{◌++◌ as ◌+++◌}
use primehub_controller.Prelude.{
  List, Result, String, ℤ, [], ◌∷◌, ◌++◌, some, none, ok, if◌then◌else◌, ◌>>=◌, pos,
}
use primehub_controller.Numeric.{Numeric}
use primehub_controller.GoText.{Casing, is_empty, trim_space}
use primehub_controller.GoText.Search.{has_prefix}
use primehub_controller.Escapism.{escape_to_primehub_label, Unicode}
use primehub_controller.Graphql.{DtoUser}
use primehub_controller.Kube.{ObjectKey}
use primehub_controller.Spawn.{Container, no_container, VolumeMount, EnvVar, literal, Spawner}
use primehub_controller.Spawn.Build.{build_container}
use primehub_controller.Spawn.Constructors.{new_spawner_for_model_deployment}
use primehub_controller.Deployment.{PhDeploymentSpec}
use primehub_controller.Deployment.ModelVolumes.{
  Settings, goes_on, plain_mount, model_mount, nfs_mount, phfs_mount,
}

-- The parts of PredictorSpec that the engine is told.
pub record PredictorSpec (Q : Type 0) : Type 0 where
  pub name : String
  pub containers : List (Container Q)
  pub service_host : String
  pub replicas : ℤ
  pub labels : List (String × String)
  pub traffic : ℤ

abbrev variable : String → String → EnvVar
variable name value = record { name = name; value = literal value }

unfoldable pub labels_of : Unicode → String → String → List (String × String)
labels_of tables name group_name =
    ("app", "primehub-deployment")
    ∷ ("primehub.io/phdeployment", name)
    ∷ ("primehub.io/group", escape_to_primehub_label tables group_name)
    ∷ []

module _ (casing : Casing) (spec : PhDeploymentSpec) where
  -- The mounts of the model container for the URI of the model.
  unfoldable pub model_mounts : List VolumeMount
  model_mounts =
      let uri = spec.predictor.model_uri in
      plain_mount "/etc/podinfo" "podinfo"
      ∷ (if is_empty uri
          then []
          else model_mount
            ∷ ((if goes_on uri "phfs" then phfs_mount casing spec.group_name ∷ [] else [])
                ++ (if has_prefix uri "nfs://" then nfs_mount ∷ [] else [])))

  unfoldable pub model_env : String → List EnvVar
  model_env name =
      (variable "PREDICTIVE_UNIT_SERVICE_PORT" "9000"
        ∷ variable "PREDICTIVE_UNIT_ID" "model"
        ∷ variable "PREDICTIVE_UNIT_IMAGE" spec.predictor.model_image
        ∷ variable "PREDICTOR_ID" "deploy"
        ∷ variable "SELDON_DEPLOYMENT_ID" ("deploy-" +++ name)
        ∷ [])
      ++ ((if is_empty spec.predictor.model_uri
            then []
            else variable "PREDICTIVE_UNIT_PARAMETERS"
                "[{\"name\":\"model_uri\",\"value\":\"/mnt/models\",\"type\":\"STRING\"}]"
              ∷ [])
          ++ spec.env)

module _ ⦃api : Numeric⦄ (casing : Casing) (settings : Settings) where
  open api use {Quantity, Float}

  -- func buildModelContainer, for the container of the spawner.
  unfoldable pub model_container : String → PhDeploymentSpec → Spawner Quantity → Container Quantity
  model_container name spec spawner = record no_container {
    name = "model";
    image = trim_space spec.predictor.model_image;
    env = model_env casing spec name;
    volume_mounts = model_mounts casing spec;
    requests = (build_container spawner none).requests;
    limits = (build_container spawner none).limits;
  }

  -- func buildModelContainer
  unfoldable pub build_model_container :
      String → PhDeploymentSpec → Result (DtoUser Float) → Result (Container Quantity)
  build_model_container name spec fetched = do
    user ← fetched
    spawner ←
        new_spawner_for_model_deployment user spec.group_name spec.predictor.instance_type
          spec.predictor.model_image
    ok (model_container name spec spawner)

  -- func buildSeldonPredictor; the engine is given no traffic.
  unfoldable pub build_seldon_predictor :
      Unicode → String → PhDeploymentSpec → Container Quantity → PredictorSpec Quantity
  build_seldon_predictor tables name spec container = record {
    name = "deploy";
    containers = container ∷ [];
    service_host = "localhost";
    replicas = spec.predictor.replicas;
    labels = labels_of tables name spec.group_name;
    traffic = pos 0;
  }

  -- func buildEngineContainer, for what getEngineVarJson returns. Its resources are set afterwards.
  unfoldable pub engine_container : ObjectKey → String → Container Quantity
  engine_container key predictor = record no_container {
    name = "seldon-container-engine";
    image = settings.engine_image;
    volume_mounts = plain_mount "/etc/podinfo" "podinfo" ∷ [];
    args =
        "--sdep" ∷ key.name ∷ "--namespace" ∷ key.namespace ∷ "--predictor" ∷ "deploy"
        ∷ "--http_port" ∷ "8000" ∷ "--grpc_port" ∷ "5001" ∷ "--transport" ∷ "rest" ∷ "--protocol"
        ∷ "seldon" ∷ "--prometheus_path" ∷ "/prometheus" ∷ [];
    env =
        variable "ENGINE_PREDICTOR" predictor
        ∷ variable "DEPLOYMENT_NAME" ("deploy-" +++ key.name)
        ∷ variable "DEPLOYMENT_NAMESPACE" key.namespace
        ∷ variable "ENGINE_SERVER_PORT" "8000"
        ∷ variable "ENGINE_SERVER_GRPC_PORT" "5001"
        ∷ variable "SELDON_LOG_MESSAGES_EXTERNALLY" "false"
        ∷ [];
    run_as_user = some (pos 8888);
  }
