-- ===== src/Application/Samples.antt =====
-- An application with one container, and the answers to its calls.
use primehub_controller.Prelude.{
  List, String, ℤ, [], ◌∷◌, false, none, some, ok, err, message, Error, pos, refl,
}
use primehub_controller.Numeric.Exact.{exact}
use primehub_controller.Spawn.Samples.{plain, in_order, research_group}
use primehub_controller.Quota.Samples.{small_type}
use primehub_controller.Escapism.Samples.{latin}
use primehub_controller.Spawn.{no_container, SpawnerOptions}
use primehub_controller.Spawn.Build.{PodSpec}
use primehub_controller.Application.Objects.{PhApplication, NetworkPolicy}
use primehub_controller.Application.{AppFetched, AppSettings}
use primehub_controller.Application.Status.{AppDeploymentStatus, AppPod, verdict}
use primehub_controller.Application.Reconcile.{
  AppCluster, AppFaults, AppAnswers, reconcile_network_policy, reconcile_app_deployment,
}
use primehub_controller.Application.Phases.{ShowsVerdict, verdict-Shows}
use primehub_controller.Application.Policies.{AdmitBoth, reconcile_network_policy-Admit}
use primehub_controller.Application.Deploys.{LeavesApp, reconcile_app_deployment-LeavesApp}

abbrev template : PodSpec ℤ
template = record {
  volumes = [];
  containers = record no_container { name = "web"; image = "hub/label-studio" } ∷ [];
  init_containers = [];
  image_pull_secrets = [];
  security_context = none;
  node_selector = [];
  tolerations = [];
}

abbrev app : PhApplication ℤ
app = record {
  key = record { namespace = "hub"; name = "label-1" };
  spec = record {
    display_name = "Labels";
    group_name = "research_a";
    instance_type = "small";
    stop = false;
    pod_template = template;
    ports = record { name = "http"; protocol = "TCP"; port = pos 80; target_port = "8080" } ∷ [];
    app_root = "";
  };
}

abbrev options : SpawnerOptions ℤ
options = record {
  working_dir = "";
  working_dir_size = pos 0;
  phfs_enabled = false;
  phfs_pvc = "";
  artifact_enabled = false;
  artifact_limit_size_mb = pos 0;
  artifact_limit_files = pos 0;
  artifact_retention_seconds = pos 0;
  grant_sudo = false;
}

abbrev settings : AppSettings ℤ
settings = record {
  options = options;
  primehub_url = "https://hub";
  image_prefix = "";
  five_gibibytes = pos 5;
}

abbrev lost : AppFetched ℤ
lost = record {
  instance_type = err (message "no answer");
  group = err (message "no answer");
  global_datasets = ok [];
}

abbrev read : AppFetched ℤ
read = record { instance_type = ok small_type; group = ok research_group; global_datasets = ok [] }

abbrev accepted : AppFaults
accepted = record {
  get_deployment = none;
  create_deployment = none;
  update_deployment = none;
  get_service = none;
  create_service = none;
  update_service = none;
  get_group_policy = none;
  get_proxy_policy = none;
  write_group_policy = none;
  write_proxy_policy = none;
}

abbrev nothing : AppCluster ℤ
nothing = record { deployment = none; service = none; group_policy = none; proxy_policy = none }

abbrev partly_up : AppDeploymentStatus
partly_up = record { replicas = pos 2; ready_replicas = pos 1; conditions = [] }

abbrev describe : Error → String
describe (message text) = text
describe other = "error"

-- The one pod cannot be scheduled.
abbrev unscheduled : AppPod
unscheduled = record {
  conditions = record { status = "False"; reason = "Unschedulable"; message = "no node" } ∷ [];
  container_statuses = [];
}

verdict-Shows_example :
    ShowsVerdict describe none false
      (ok partly_up)
      (ok (unscheduled ∷ []))
      (verdict describe none false (ok partly_up) (ok (unscheduled ∷ [])))
verdict-Shows_example = verdict-Shows describe none false (ok partly_up) (ok (unscheduled ∷ []))

abbrev old_policy : NetworkPolicy
old_policy = record {
  key = record { namespace = "hub"; name = "app-label-1-group" };
  labels = ("primehub.io/group", "other") ∷ [];
  pod_selector = [];
  ingress = [];
}

abbrev with_policy : AppCluster ℤ
with_policy = record nothing { group_policy = some old_policy }

reconcile_network_policy-Admit_example :
    AdmitBoth latin accepted app with_policy
      (reconcile_network_policy latin accepted app with_policy)
reconcile_network_policy-Admit_example =
    reconcile_network_policy-Admit latin accepted app with_policy refl refl refl refl

abbrev marshal : List (String × String) → String
marshal entries = "{}"

reconcile_app_deployment-LeavesApp_example :
    LeavesApp latin plain in_order (pos 1) settings marshal app (
      reconcile_app_deployment latin plain in_order
        (pos 1)
        settings
        marshal
        accepted
        app
        read
        nothing)
reconcile_app_deployment-LeavesApp_example =
    reconcile_app_deployment-LeavesApp latin plain in_order (pos 1) settings marshal app accepted
      read nothing ((tt, tt), tt)

abbrev answers : AppAnswers ℤ ℤ
answers = record {
  get = ok app;
  fetched = lost;
  faults = accepted;
  status = ok partly_up;
  pods = ok [];
  update_status_error = none;
}
