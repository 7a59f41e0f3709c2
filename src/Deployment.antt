-- ===== src/Deployment.antt =====
-- ee/api/v1alpha1/phdeployment_types.go and what ee/controllers/phdeployment_controller.go reads of
-- Kubernetes objects. A specification has a first predictor: where the list is empty the code panics.
pub mod PodStates
pub mod Pods
pub mod Status
pub mod ModelVolumes
pub mod Storage
pub mod Containers
pub mod Build
pub mod Objects
pub mod Access
pub mod Update
pub mod Recorded
pub mod Reconcile
pub mod Phases
pub mod Compare
pub mod Settles
pub mod Applied
pub mod Runs
pub mod Annotated
pub mod Guards
pub mod Sources
pub mod Known
pub mod Closed
pub mod Mounts
pub mod ClosedBuild
pub mod Shares
pub mod Released
mod Cases
mod Samples
use Prim.Native.String.{◌++◌ as ◌+++◌}
use primehub_controller.Prelude.{
  Bool, List, Option, String, ℤ, [], ◌∷◌, str_eq, ◌==◌, ◌&&◌, false, true, some, none,
  if◌then◌else◌, ◌≡◌, ◌↔◌,
}
use primehub_controller.Kube.{ObjectKey}
use primehub_controller.Spawn.{EnvVar, EnvValue, literal, field_ref}

-- type PhDeploymentPredictor
pub record Predictor : Type 0 where
  pub name : String
  pub replicas : ℤ
  pub model_image : String
  pub instance_type : String
  pub model_uri : String
  pub image_pull_secret : String
  pub metadata : List (String × String)

-- type PhDeploymentSpec with its PhDeploymentEndpoint; a client is its name and its token.
pub record PhDeploymentSpec : Type 0 where
  pub display_name : String
  pub user_id : String
  pub user_name : String
  pub group_id : String
  pub group_name : String
  pub stop : Bool
  pub description : String
  pub update_message : String
  pub predictor : Predictor
  pub other_predictors : List Predictor
  pub access_type : String
  pub clients : List (String × String)
  pub env : List EnvVar

-- type PhDeploymentPhase; a deployment that was never looked at has none.
pub data DeploymentPhase : Type 0 where
  no_phase deploying deployed stopped stopping failed : DeploymentPhase

-- type PhDeploymentHistory
pub record History : Type 0 where
  pub time : ℤ
  pub spec : PhDeploymentSpec

-- type PhDeploymentStatus
pub record PhDeploymentStatus : Type 0 where
  pub phase : DeploymentPhase
  pub message : String
  pub replicas : ℤ
  pub available_replicas : ℤ
  pub endpoint : String
  pub history : List History

-- type PhDeployment. `has_empty` says that a list or a map which JSON leaves out where it is empty is
-- there in the specification, and empty; else an empty one is nil.
pub record PhDeployment : Type 0 where
  pub key : ObjectKey
  pub has_empty : Bool
  pub spec : PhDeploymentSpec
  pub status : PhDeploymentStatus

-- getSecretKey, getDeploymentKey, getServiceKey and getIngressKey
unfoldable pub deploy_key : ObjectKey → ObjectKey
deploy_key key = record { namespace = key.namespace; name = "deploy-" +++ key.name }

-- func isPrivateAccess
unfoldable pub is_private_access : PhDeploymentSpec → Bool
is_private_access spec = str_eq spec.access_type "private"

-- How encoding/json writes a specification into an annotation and reads it back, and Semantic.DeepEqual
-- on specifications. Both take an empty list or map and a nil one for the same. The entries of a map stand
-- in the order of their keys.
pub record Codec : Type 1 where
  pub Json : Type 0
  pub marshal : PhDeploymentSpec → Json
  pub unmarshal : Json → Option PhDeploymentSpec
  pub deep_equal : PhDeploymentSpec → PhDeploymentSpec → Bool
  pub unmarshal-marshal : (spec : PhDeploymentSpec) → unmarshal (marshal spec) ≡ some spec
  pub deep_equal_iff : (a b : PhDeploymentSpec) → (deep_equal a b ≡ true) ↔ (a ≡ b)

-- corev1.EnvVar.Value, which is empty for a variable that takes its value from elsewhere.
abbrev pub value_text : EnvValue → String
value_text (literal text) = text
value_text (field_ref path) = ""

-- func compareEnvVar
unfoldable pub compare_env_var : List EnvVar → List EnvVar → Bool
compare_env_var [] [] = true
compare_env_var [] (other ∷ others) = false
compare_env_var (variable ∷ variables) [] = false
compare_env_var (variable ∷ variables) (other ∷ others) =
    str_eq variable.name other.name
    && str_eq (value_text variable.value) (value_text other.value)
    && compare_env_var variables others
