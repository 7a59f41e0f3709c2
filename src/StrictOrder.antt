-- ===== src/StrictOrder.antt =====
-- ee/controllers/phjob_scheduler.go: scheduleByStrictOrder, which hands out what remains of the quota
-- of a group. What a pass reads (groups, instance types,
-- pods) is given by `Answers`. A quota that stands in the map of the users is shared with no other
-- owner, so the updates through its pointers are updates of the map.
pub mod Grants
pub mod Budget
pub mod Panics
pub mod Promotions
pub mod Samples
use text.Mathlib.Text.{◌==◌}
use primehub_controller.Prelude.{
  String, Bool, true, false, Option, none, some, List, [], ◌∷◌, ◌++◌, map, Result, ok, err, Error,
  ◌>>=◌, if◌then◌else◌, lookup, insert, keep, ℤ, not, ◌&&◌,
}
use primehub_controller.Numeric.{Numeric}
use primehub_controller.Kube.{ObjectKey}
use primehub_controller.Escapism.{Unicode}
use primehub_controller.Quota.{
  ResourceQuota, Quota, DtoGroup, DtoInstanceType, convert_to_resource_quota,
  instance_type_requested_quota, validate_resource,
}
use primehub_controller.Quota.Usage.{
  ListPods, calculate_group_remaining_resource_quota, calculate_user_remaining_resource_quota,
}
use primehub_controller.PhJob.{PhJobPhase, PhJobReason, PhJob, is_pending, is_preparing}

-- The places of a pass at which the cache and the API server are asked. Each is reached at most once
-- for a job, so a function of the place and the job gives every course that the answers can take.
pub data Site : Type 0 where
  validating group_remaining user_remaining ordering : Site

-- How the loop of scheduleByStrictOrder ends.
pub data Ending : Type 0 where
  completed : Ending
  failed : Error → Ending
  panicked : Ending

abbrev pub is_panicked : Ending → Bool
is_panicked panicked = true
is_panicked _ = false

-- phJob.Status.Phase = JobPreparing
abbrev pub prepare : PhJob → PhJob
prepare job = record job { status = record job.status { phase = PhJobPhase.preparing } }

module _ ⦃api : Numeric⦄ where
  open api use {Quantity, Float}

  pub record Answers : Type 0 where
    pub fetch_group : Site → ObjectKey → String → Result (DtoGroup Float)
    pub fetch_instance_type : Site → ObjectKey → String → Result (DtoInstanceType Float)
    pub list_pods : Site → ObjectKey → ListPods
    -- metav1.Now() when a job is turned down.
    pub now : ObjectKey → ℤ
    -- sort.Slice by creation time, and the order in which a `range` visits the groups.
    pub sort : List PhJob → List PhJob
    pub range : List (String × List PhJob) → List (String × List PhJob)

  abbrev pub Users : Type 0
  Users = List (String × Quota)

  -- `*limit.Sub(*requested)` under `limit != nil`; `none` is the panic of a nil `requested`.
  spend_amount : Option Quantity → Option Quantity → Option (Option Quantity)
  spend_amount none requested = some none
  spend_amount (some limit) (some requested) = some (some (api.sub limit requested))
  spend_amount (some limit) none = none

  spend_memory : Option Quantity → Option Quantity → Option (Option Quantity) → Option Quota
  spend_memory cpu gpu none = none
  spend_memory cpu gpu (some memory) = some (record { cpu = cpu; gpu = gpu; memory = memory })

  -- The three subtractions from one quota.
  pub spend : Quota → Quota → Option Quota
  unfolding spend_amount spend_memory
  spend quota requested = elim (spend_amount quota.cpu requested.cpu) [
    | none ↦ none
    | some cpu ↦ elim (spend_amount quota.gpu requested.gpu) [
      | none ↦ none
      | some gpu ↦ spend_memory cpu gpu (spend_amount quota.memory requested.memory)
    ]
  ]

  -- What the body of the loop does with a job: `continue`, `break`, set it to Preparing and go on,
  -- return an error, or panic.
  pub data Verdict : Type 0 where
    skip : Users → Verdict
    stop : Verdict
    grant : Users → Quota → Verdict
    fail : Error → Verdict
    panic : Verdict

  grant_to : String → Users → Option Quota → Option Quota → Verdict
  grant_to user users none user_left = panic
  grant_to user users (some group) none = panic
  grant_to user users (some group) (some user_left) = grant (insert user user_left users) group

  pub decide : String → Users → Quota → Quota → Quota → Verdict
  unfolding grant_to
  decide user users user_quota group requested =
      if not (validate_resource requested user_quota)
      then skip users
      else if not (validate_resource requested group)
      then stop
      else grant_to user users (spend group requested) (spend user_quota requested)

  pub record Pass : Type 0 where
    pub jobs : List PhJob
    pub group : Quota
    pub ending : Ending

  behind : PhJob → Pass → Pass
  behind job pass = record pass { jobs = job ∷ pass.jobs }

  module _ (tables : Unicode) (answers : Answers) where
    -- func getGroupRemainingQuota
    unfoldable pub get_group_remaining_quota : PhJob → Result Quota
    get_group_remaining_quota job = do
      group ← answers.fetch_group Site.group_remaining job.key job.spec.group_id
      calculate_group_remaining_resource_quota tables
          (answers.list_pods Site.group_remaining job.key) job.key.namespace (some group)

    -- func getUserRemainingQuotaInGroup
    unfoldable pub get_user_remaining_quota_in_group : PhJob → Result Quota
    get_user_remaining_quota_in_group job = do
      group ← answers.fetch_group Site.user_remaining job.key job.spec.group_id
      calculate_user_remaining_resource_quota tables (answers.list_pods Site.user_remaining job.key)
          job.key.namespace (some group) job.spec.user_name

    -- The request of a job's instance type.
    unfoldable pub requested_quota : Site → PhJob → Result Quota
    requested_quota site job =
        answers.fetch_instance_type site job.key job.spec.instance_type
        >>= instance_type_requested_quota

    visit_user : PhJob → Users → Quota → Quota → Verdict
    visit_user job users group requested = elim (lookup job.spec.user_name users) [
      | some user_quota ↦ decide job.spec.user_name users user_quota group requested
      | none ↦ elim (get_user_remaining_quota_in_group job) [
        | err e ↦ fail e
        | ok user_quota ↦
            decide job.spec.user_name (insert job.spec.user_name user_quota users) user_quota group
              requested
      ]
    ]

    -- The body of the loop of scheduleByStrictOrder.
    pub visit : PhJob → Users → Quota → Verdict
    visit job users group = elim (requested_quota Site.ordering job) [
      | err e ↦ fail e
      | ok requested ↦ visit_user job users group requested
    ]

    -- The loop of scheduleByStrictOrder over the jobs that are left. The jobs come back in their order,
    -- with the phases that the loop has set through the pointers.
    pub schedule_by_strict_order : List PhJob → Users → Quota → Pass
    schedule_by_strict_order [] users group = record {
      jobs = [];
      group = group;
      ending = completed;
    }
    schedule_by_strict_order (job ∷ jobs) users group = elim (visit job users group) [
      | skip users' ↦ behind job (schedule_by_strict_order jobs users' group)
      | stop ↦ record { jobs = job ∷ jobs; group = group; ending = completed }
      | grant users' group' ↦ behind (prepare job) (schedule_by_strict_order jobs users' group')
      | fail e ↦ record { jobs = job ∷ jobs; group = group; ending = failed e }
      | panic ↦ record { jobs = prepare job ∷ jobs; group = group; ending = panicked }
    ]
