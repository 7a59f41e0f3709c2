-- ===== src/Quota/Samples.antt =====
-- Small quotas, groups and pods.
use primehub_controller.Prelude.{
  String, ◌*ℤ◌, ◌≡◌, refl, none, some, List, [], ◌∷◌, ℤ, pos, ◌+ℤ◌, ok,
}
use primehub_controller.Numeric.Exact.{exact, gibibytes}
use primehub_controller.Kube.{PodPhase, PodStatus, Pod}
use primehub_controller.Escapism.Samples.{latin}
use primehub_controller.Quota.{
  Quota, DtoGroup, DtoInstanceType, convert_to_resource_quota, group_resource_quota,
  instance_type_requested_quota,
}
use primehub_controller.Quota.Usage.{ListPods, calculate_group_remaining_resource_quota}
use primehub_controller.Quota.Usage.Totals.{
  over_pods, cpu_of, gpu_of, memory_of, active, Left, calculate_group_remaining-Left,
}

abbrev pub research : DtoGroup ℤ
research = record {
  name = "research";
  quota_cpu = pos 4;
  quota_gpu = pos 2;
  quota_memory = "4Gi";
  project_quota_cpu = pos 8;
  project_quota_gpu = pos 2;
  project_quota_memory = "8Gi";
  job_default_active_deadline_seconds = some (pos 3600);
}

abbrev pub type_with : String → DtoInstanceType ℤ
type_with memory = record {
  limits_cpu = pos 4;
  requests_cpu = pos 2;
  requests_memory = "";
  limits_memory = memory;
  requests_gpu = pos 0;
  limits_gpu = pos 1;
  gpu_resource_name = "nvidia.com/gpu";
  node_selector = [];
  tolerations = [];
}

abbrev pub small_type : DtoInstanceType ℤ
small_type = type_with "4Gi"

-- No memory limit.
abbrev pub open_type : DtoInstanceType ℤ
open_type = type_with ""

abbrev pub small_request : Quota
small_request = record {
  cpu = some (pos 2000000000);
  gpu = some (pos 1000000000);
  memory = some (gibibytes 4);
}

abbrev pub research_quota : Quota
research_quota = record {
  cpu = some (pos 4000000000);
  gpu = some (pos 1000000000);
  memory = some (gibibytes 8);
}

pub small_type_request : instance_type_requested_quota small_type ≡ ok small_request
unfolding instance_type_requested_quota convert_to_resource_quota ◌*ℤ◌ ◌+ℤ◌
small_type_request = refl

abbrev pub no_pod_status : PodPhase → PodStatus
no_pod_status phase = record {
  phase = phase;
  reason = "";
  message = "";
  start_time = none;
  conditions = [];
  container_statuses = [];
}

abbrev pod_in : PodPhase → Pod ℤ
pod_in phase = record {
  key = record { namespace = "hub"; name = "pod" };
  creation_timestamp = pos 0;
  labels = [];
  limits =
      (("cpu", pos 1000000000) ∷ ("amd.com/gpu", pos 1000000000) ∷ [])
      ∷ (("memory", gibibytes 4) ∷ [])
      ∷ [];
  status = no_pod_status phase;
}

abbrev pub two_pods : List (Pod ℤ)
two_pods = pod_in PodPhase.running ∷ pod_in PodPhase.succeeded ∷ []

abbrev pub answer_two : ListPods
answer_two namespace labels = ok two_pods

calculate_group_remaining-Left_example :
    (left : Quota) × (calculate_group_remaining_resource_quota latin answer_two "hub"
        (some research)
      ≡ ok left)
    × Left (some (pos 4000000000)) (over_pods cpu_of (active two_pods)) left.cpu
    × Left (some (pos 1000000000)) (over_pods gpu_of (active two_pods)) left.gpu
    × Left (some (gibibytes 8)) (over_pods memory_of (active two_pods)) left.memory
unfolding group_resource_quota convert_to_resource_quota ◌*ℤ◌ ◌+ℤ◌
calculate_group_remaining-Left_example =
    calculate_group_remaining-Left latin answer_two "hub" research {group_quota = research_quota}
      {user_quota = record {
        cpu = some (pos 2000000000);
        gpu = some (pos 1000000000);
        memory = some (gibibytes 4);
      }}
      refl refl
