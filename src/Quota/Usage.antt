-- ===== src/Quota/Usage.antt =====
-- What the pending and running pods of a group or a user take, and what remains of a quota.
pub mod Totals
use text.Mathlib.Text.{starts_with}
use primehub_controller.Prelude.{
  String, Bool, true, false, Option, none, some, List, [], ◌∷◌, Result, ok, err, message, ◌>>=◌,
  if◌then◌else◌, lookup,
}
use primehub_controller.Numeric.{Numeric, ResourceList}
use primehub_controller.Kube.{PodPhase, Pod}
use primehub_controller.Escapism.{Unicode, escape_to_primehub_label}
use primehub_controller.Quota.{Quota, DtoGroup, group_resource_quota}

module _ {Q : Type 0} where
  -- The last loop of getGpuFromLimits: the entry that the `range` meets first.
  first_intel : ResourceList Q → Option Q
  first_intel [] = none
  first_intel ((key, q) ∷ limits) =
      if starts_with key "gpu.intel.com/" then some q else first_intel limits

  or_else : Option Q → Option Q → Option Q
  or_else (some q) later = some q
  or_else none later = later

  unfoldable pub get_gpu_from_limits : ResourceList Q → Option Q
  unfolding first_intel or_else
  get_gpu_from_limits limits =
      or_else (lookup "nvidia.com/gpu" limits)
        (or_else (lookup "amd.com/gpu" limits) (first_intel limits))

-- strings.Index(userName, "escaped-") != 0
unfoldable pub user_label : Unicode → String → String
user_label tables user_name =
    if starts_with user_name "escaped-"
    then user_name
    else escape_to_primehub_label tables user_name

-- pod.Status.Phase == corev1.PodPending || pod.Status.Phase == corev1.PodRunning
abbrev pub counts : PodPhase → Bool
counts PodPhase.pending = true
counts PodPhase.running = true
counts _ = false

abbrev pub Labels : Type 0
Labels = List (String × String)

-- The labels by which the pods of a group, and of a user in a group, are listed.
abbrev pub group_labels : String → Labels
group_labels group_name = ("primehub.io/group", group_name) ∷ []

abbrev pub user_labels : String → String → Labels
user_labels group_name user_name =
    ("primehub.io/group", group_name) ∷ ("primehub.io/user", user_name) ∷ []

module _ ⦃api : Numeric⦄ where
  open api use {Quantity, Float, zero_quantity, add, sub, limit_cpu, limit_memory}

  -- `resourceUsage` starts with three quantities, and none of them becomes nil.
  pub record UsageSum : Type 0 where
    pub cpu : Quantity
    pub gpu : Quantity
    pub memory : Quantity

  abbrev pub no_usage : UsageSum
  no_usage = record { cpu = zero_quantity; gpu = zero_quantity; memory = zero_quantity }

  add_gpu : Quantity → Option Quantity → Quantity
  add_gpu total (some q) = add total q
  add_gpu total none = total

  add_container : UsageSum → ResourceList Quantity → UsageSum
  unfolding add_gpu
  add_container usage limits = record {
    cpu = add usage.cpu (limit_cpu limits);
    gpu = add_gpu usage.gpu (get_gpu_from_limits limits);
    memory = add usage.memory (limit_memory limits);
  }

  -- The loop over the containers of a pod.
  add_containers : UsageSum → List (ResourceList Quantity) → UsageSum
  unfolding add_container
  add_containers usage [] = usage
  add_containers usage (limits ∷ containers) =
      add_containers (add_container usage limits) containers

  -- The loop over the pods.
  unfoldable pub add_pods : UsageSum → List (Pod Quantity) → UsageSum
  unfolding add_containers
  add_pods usage [] = usage
  add_pods usage (pod ∷ pods) =
      add_pods (if counts pod.status.phase then add_containers usage pod.limits else usage) pods

  -- The answer of the API server to a List of the pods with some labels in a namespace.
  abbrev pub ListPods : Type 0
  ListPods = String → Labels → Result (List (Pod Quantity))

  module _ (list_pods : ListPods) (namespace : String) where
    -- func CurrentResourceUsage
    unfoldable pub current_resource_usage : Labels → Result UsageSum
    current_resource_usage labels =
        list_pods namespace labels >>= λ pods. ok (add_pods no_usage pods)

    -- func CurrentGroupResourceUsage
    unfoldable pub current_group_resource_usage : String → Result UsageSum
    current_group_resource_usage group_name = current_resource_usage (group_labels group_name)

    -- func CurrentUserResourceUsage
    unfoldable pub current_user_resource_usage : String → String → Result UsageSum
    current_user_resource_usage group_name user_name =
        current_resource_usage (user_labels group_name user_name)

  sub_used : Option Quantity → Quantity → Option Quantity
  sub_used none used = none
  sub_used (some limit) used = some (sub limit used)

  unfoldable pub remaining : Quota → UsageSum → Quota
  unfolding sub_used
  remaining quota usage = record {
    cpu = sub_used quota.cpu usage.cpu;
    gpu = sub_used quota.gpu usage.gpu;
    memory = sub_used quota.memory usage.memory;
  }

  module _ (tables : Unicode) (list_pods : ListPods) (namespace : String) where
    -- func CalculateGroupRemainingResourceQuota; a nil group is `none`.
    unfoldable pub calculate_group_remaining_resource_quota : Option (DtoGroup Float) → Result Quota
    calculate_group_remaining_resource_quota none = err (message "groupInfo not provided")
    calculate_group_remaining_resource_quota (some group) = do
      usage ←
          current_group_resource_usage list_pods namespace
            (escape_to_primehub_label tables group.name)
      quotas ← group_resource_quota group
      ok (remaining quotas.0 usage)

    -- func CalculateUserRemainingResourceQuota
    unfoldable pub calculate_user_remaining_resource_quota :
        Option (DtoGroup Float) → String → Result Quota
    calculate_user_remaining_resource_quota none user_name = err (message "groupInfo not provided")
    calculate_user_remaining_resource_quota (some group) user_name = do
      usage ←
          current_user_resource_usage list_pods namespace
            (escape_to_primehub_label tables group.name) (user_label tables user_name)
      quotas ← group_resource_quota group
      ok (remaining quotas.1 usage)
