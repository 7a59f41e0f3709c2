-- ===== src/Quota.antt =====
-- pkg/quota/resourceQuota.go: quotas, their conversion from the group and instance type records,
-- the usage of the running pods, and what remains. A `*resource.Quantity` is an `Option`.
pub mod Usage
pub mod Validation
pub mod Samples
use primehub_controller.Numeric.{Numeric}
use primehub_controller.Kube.{Toleration}
use primehub_controller.Prelude.{
  List, String, Bool, true, false, ◌||◌, Option, none, some, ℤ, Result, ok, ◌>>=◌, if◌then◌else◌,
  str_eq,
}
use Prim.Native.Nat.{Ordering}

-- type ResourceQuota
pub record ResourceQuota (Q : Type 0) : Type 0 where
  pub cpu : Option Q
  pub gpu : Option Q
  pub memory : Option Q

-- The quota fields of graphql.DtoGroup, and graphql.DtoInstanceTypeSpec, over the type of a float32.
pub record DtoGroup (F : Type 0) : Type 0 where
  pub name : String
  pub quota_cpu : F
  pub quota_gpu : F
  pub quota_memory : String
  pub project_quota_cpu : F
  pub project_quota_gpu : F
  pub project_quota_memory : String
  pub job_default_active_deadline_seconds : Option ℤ

pub record DtoInstanceType (F : Type 0) : Type 0 where
  pub limits_cpu : F
  pub requests_cpu : F
  pub requests_memory : String
  pub limits_memory : String
  pub requests_gpu : ℤ
  pub limits_gpu : ℤ
  pub gpu_resource_name : String
  pub node_selector : List (String × String)
  pub tolerations : List Toleration

module _ ⦃api : Numeric⦄ where
  open api use {Quantity, Float}

  abbrev pub Quota : Type 0
  Quota = ResourceQuota Quantity

  abbrev combine :
      (Quantity → Quantity → Quantity) → Option Quantity → Option Quantity → Option Quantity
  combine f (some x) (some y) = some (f x y)
  combine f (some x) none = some x
  combine f none y = none

  -- func (r *ResourceQuota) Sub
  unfoldable pub sub : Quota → Quota → Quota
  sub r y = record {
    cpu = combine api.sub r.cpu y.cpu;
    gpu = combine api.sub r.gpu y.gpu;
    memory = combine api.sub r.memory y.memory;
  }

  -- func (r *ResourceQuota) Add
  unfoldable pub add : Quota → Quota → Quota
  add r y = record {
    cpu = combine api.add r.cpu y.cpu;
    gpu = combine api.add r.gpu y.gpu;
    memory = combine api.add r.memory y.memory;
  }

  unfoldable pub new_resource_quota : Quota
  new_resource_quota = record {
    cpu = some api.zero_quantity;
    gpu = some api.zero_quantity;
    memory = some api.zero_quantity;
  }

  -- The text of an absent memory limit is empty.
  unfoldable pub memory_limit : String → Result (Option Quantity)
  memory_limit memory =
      if str_eq memory "" then ok none else (api.parse_quantity memory >>= λ q. ok (some q))

  cpu_limit : Float → Option Quantity
  cpu_limit cpu =
      if api.float_lt cpu (api.float_of 0)
      then none
      else some (
          api.of_milli
            (api.to_int64 (api.float_add (api.float_mul cpu (api.float_of 1000)) api.half)))

  gpu_limit : Float → Option Quantity
  gpu_limit gpu =
      if api.float_lt gpu (api.float_of 0)
      then none
      else some (api.of_int (api.to_int64 (api.float_add gpu api.half)))

  unfoldable pub convert_to_resource_quota : Float → Float → String → Result Quota
  unfolding memory_limit cpu_limit gpu_limit
  convert_to_resource_quota cpu gpu memory = memory_limit memory >>= λ limit.
      ok (record { cpu = cpu_limit cpu; gpu = gpu_limit gpu; memory = limit })

  unfoldable pub instance_type_requested_quota : DtoInstanceType Float → Result Quota
  instance_type_requested_quota instance_type =
      convert_to_resource_quota instance_type.limits_cpu (api.float_of_int instance_type.limits_gpu)
        instance_type.limits_memory

  -- The group quota and the quota of each user.
  unfoldable pub group_resource_quota : DtoGroup Float → Result (Quota × Quota)
  group_resource_quota group = do
    group_quota ←
        convert_to_resource_quota group.project_quota_cpu group.project_quota_gpu
          group.project_quota_memory
    user_quota ← convert_to_resource_quota group.quota_cpu group.quota_gpu group.quota_memory
    ok (group_quota, user_quota)

  -- resourceQuota.X != nil && requestedQuota.X != nil && resourceQuota.X.Cmp(*requestedQuota.X) == -1
  unfoldable pub lacks : Option Quantity → Option Quantity → Bool
  lacks (some limit) (some requested) = elim (api.cmp limit requested) [
    | Ordering.lt ↦ true
    | _ ↦ false
  ]
  lacks _ _ = false

  unfoldable pub validate_resource : Quota → Quota → Bool
  validate_resource requested quota =
      if lacks quota.cpu requested.cpu
        || lacks quota.gpu requested.gpu
        || lacks quota.memory requested.memory
      then false
      else true
