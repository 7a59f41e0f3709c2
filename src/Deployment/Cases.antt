-- ===== src/Deployment/Cases.antt =====
-- A deployment of two pods with a private access, its cluster and the answers to its calls.
use mathlib.Core.Bool.{true≢false, false≢true}
use mathlib.Core.HLevel.{Discrete}
use native.Mathlib.Decide.{ℕ_discrete}
use text.Mathlib.TextEquality.{eq_iff}
use primehub_controller.Prelude.{
  Bool, Option, Result, String, ℤ, [], ◌∷◌, true, false, some, none, ok, message, Error, pos, ◌≡◌,
  ◌↔◌, refl, sym, ◌∙◌, str_eq, Bool-cases, inl, inr,
}
use primehub_controller.Numeric.Exact.{exact}
use primehub_controller.Spawn.Samples.{plain, ada, show}
use primehub_controller.Escapism.Samples.{latin}
use primehub_controller.Kube.{ObjectKey}
use primehub_controller.Deployment.{
  Codec, PhDeployment, PhDeploymentSpec, PhDeploymentStatus, Predictor, no_phase,
}
use primehub_controller.Deployment.ModelVolumes.{Settings}
use primehub_controller.Deployment.Build.{DeploymentSpec, Tools, Fetched, build_deployment}
use primehub_controller.Deployment.Status.{DeploymentStatus}
use primehub_controller.Deployment.Objects.{ModelIngress, Cluster, Faults}
use primehub_controller.Deployment.Update.{Seen, Ended, reconcile_deployment}
use primehub_controller.Spawn.{no_container, Container}
use primehub_controller.Deployment.Access.{build_ingress}
use primehub_controller.Deployment.Reconcile.{Answers}

abbrev model : Predictor
model = record {
  name = "model";
  replicas = pos 2;
  model_image = "hub/iris:1";
  instance_type = "small";
  model_uri = "nfs://storage/models/iris";
  image_pull_secret = "";
  metadata = [];
}

abbrev pub spec : PhDeploymentSpec
spec = record {
  display_name = "Iris";
  user_id = "1";
  user_name = "ada";
  group_id = "2";
  group_name = "research_a";
  stop = false;
  description = "";
  update_message = "";
  predictor = model;
  other_predictors = [];
  access_type = "private";
  clients = ("bob", "secret") ∷ [];
  env = [];
}

String-discrete : Discrete String
String-discrete a b = elim (Bool-cases (str_eq a b)) [
  | inl same ↦ yes ((eq_iff a b).0 same)
  | inr other ↦ no (λ e. true≢false (sym ((eq_iff a b).1 e) ∙ other))
]

pub PhDeploymentSpec-discrete : Discrete PhDeploymentSpec
PhDeploymentSpec-discrete = hlevel (String-discrete, ℕ_discrete)

abbrev is_yes : {A : Type 0} → Dec A → Bool
is_yes (yes a) = true
is_yes (no n) = false

pub is_yes_iff : {A : Type 0} (d : Dec A) → (is_yes d ≡ true) ↔ A
is_yes_iff (yes a) = (λ e. a, λ b. refl)
is_yes_iff (no n) = (λ e. absurd (false≢true e), λ a. absurd (n a))

abbrev pub codec : Codec
codec = record {
  Json = PhDeploymentSpec;
  marshal = λ s. s;
  unmarshal = λ s. some s;
  deep_equal = λ a b. is_yes (PhDeploymentSpec-discrete a b);
  unmarshal-marshal = λ s. refl;
  deep_equal_iff = λ a b. is_yes_iff (PhDeploymentSpec-discrete a b);
}

abbrev pub status : PhDeploymentStatus
status = record {
  phase = no_phase;
  message = "";
  replicas = pos 0;
  available_replicas = pos 0;
  endpoint = "";
  history = [];
}

abbrev pub half_up : DeploymentStatus
half_up = record { available_replicas = pos 1; updated_replicas = pos 2; conditions = [] }

abbrev pub key : ObjectKey
key = record { namespace = "hub"; name = "iris" }

abbrev pub settings : Settings
settings = record {
  engine_image = "engine";
  storage_image = "storage";
  mlflow_storage_image = "mlflow";
  phfs_enabled = false;
  phfs_pvc = "";
  primehub_url = "https://hub";
  image_prefix = "";
}

abbrev pub tools : Tools ℤ
tools = record {
  milli_value = λ q. q;
  value = λ q. q;
  tenth = λ n. pos 0;
  marshal_map = λ entries. "{}";
  encode_predictor = λ predictor. ok "e30=";
}

abbrev pub fetched : Fetched ℤ
fetched = record {
  for_container = ok ada;
  for_selectors = ok ada;
  for_mlflow = ok [];
  set_reference_error = none;
}

abbrev pub no_faults : Faults
no_faults = record {
  get_secret = none;
  refer_secret = none;
  create_secret = none;
  update_secret = none;
  get_deployment = none;
  create_deployment = none;
  update_deployment = none;
  get_again = none;
  get_service = none;
  create_service = none;
  get_ingress = none;
  create_ingress = none;
  update_ingress = none;
  delete_deployment = none;
  delete_service = none;
  delete_ingress = none;
  delete_secret = none;
}

abbrev pub has_empty : Bool
has_empty = false

abbrev pub seen : Seen
seen = record { status = half_up; pods = ok []; events = ok [] }

abbrev pub nothing : Cluster PhDeploymentSpec ℤ
nothing = record { deployment = none; service = none; ingress = none; secret = none }

abbrev pub describe : Error → String
describe (message text) = text
describe other = "error"

abbrev pub built_result : Option (Result (DeploymentSpec ℤ))
built_result = build_deployment plain settings tools latin key spec fetched

abbrev or_zero : Option (Result (DeploymentSpec ℤ)) → DeploymentSpec ℤ
or_zero (some (ok built)) = built
or_zero other = record {
  replicas = pos 0;
  selector = [];
  labels = [];
  annotations = [];
  node_selector = [];
  tolerations = [];
  image_pull_secrets = [];
  init_containers = [];
  containers = [];
  volumes = [];
}

abbrev pub built : DeploymentSpec ℤ
built = or_zero built_result

abbrev pub ended : Ended PhDeploymentSpec ℤ
ended = record {
  cluster = record nothing {
    deployment = some (record {
      spec = built;
      last_applied = some spec;
      status = record { available_replicas = pos 0; updated_replicas = pos 0; conditions = [] };
    });
  };
  status = status;
  error = none;
}

abbrev pub run : Option (Ended PhDeploymentSpec ℤ)
run =
    reconcile_deployment codec show describe no_faults
      (λ s. build_deployment plain settings tools latin key s fetched) seen has_empty spec status
      nothing

abbrev pub open_ingress : ModelIngress
open_ingress = build_ingress key (("nginx.ingress.kubernetes.io/rewrite-target", "/$1") ∷ [])

abbrev pub public_spec : PhDeploymentSpec
public_spec = record spec { access_type = "public" }

abbrev pub small_model : Container ℤ
small_model = record no_container { limits = ("cpu", pos 200) ∷ ("memory", pos 524288000) ∷ [] }

abbrev pub deployment : PhDeployment
deployment = record { key = key; has_empty = has_empty; spec = spec; status = status }

abbrev pub answers : Answers
answers = record {
  get = ok deployment;
  group_enabled = ok false;
  faults = no_faults;
  seen = seen;
  get_to_update = ok deployment;
  update_status_error = none;
  now = pos 7;
}
