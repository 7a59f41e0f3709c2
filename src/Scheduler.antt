-- ===== src/Scheduler.antt =====
-- ee/controllers/phjob_scheduler.go: Schedule, one pass over the pending jobs.
pub mod Updates
mod Samples
use text.Mathlib.Text.{◌==◌}
use primehub_controller.Prelude.{
  String, Bool, true, false, Option, none, some, List, [], ◌∷◌, ◌++◌, map, Result, ok, err, Error,
  ◌>>=◌, if◌then◌else◌, lookup, insert, keep, ℤ, not, ◌&&◌,
}
use primehub_controller.Numeric.{Numeric}
use primehub_controller.Kube.{ObjectKey}
use primehub_controller.Escapism.{Unicode}
use primehub_controller.Quota.{
  ResourceQuota, Quota, DtoGroup, DtoInstanceType, convert_to_resource_quota,
  instance_type_requested_quota, validate_resource,
}
use primehub_controller.Quota.Usage.{
  ListPods, calculate_group_remaining_resource_quota, calculate_user_remaining_resource_quota,
}
use primehub_controller.PhJob.{PhJobPhase, PhJobReason, PhJob, is_pending, is_preparing}
use primehub_controller.StrictOrder.{
  Site, Answers, Pass, is_panicked, prepare, get_group_remaining_quota, requested_quota,
  schedule_by_strict_order,
}

-- The status that Schedule gives to a job that it turns down.
abbrev pub reject_job : PhJobReason → String → ℤ → PhJob → PhJob
reject_job reason text now job = record job {
  status = record job.status {
    phase = PhJobPhase.failed;
    reason = reason;
    message = text;
    finish_time = some now;
  };
}

abbrev pub over_quota_message : String
over_quota_message = "Your instance type resource limit is bigger than your user or group quota."

-- What the first loop of Schedule does with a job.
pub data Admission : Type 0 where
  admit : Admission
  drop : Admission
  reject : PhJob → Admission

-- The status updates that were sent, and whether a panic ended the process.
pub record Writes : Type 0 where
  pub statuses : List PhJob
  pub crashed : Bool

-- func list: the pending jobs.
abbrev pub pending_jobs : List PhJob → List PhJob
pending_jobs = keep (λ job. is_pending job.status.phase)

-- func group: a map from group ids to jobs; each job is appended to the jobs of its group.
append_job : String → PhJob → List (String × List PhJob) → List (String × List PhJob)
append_job id job [] = (id, job ∷ []) ∷ []
append_job id job ((j, jobs) ∷ groups) =
    if j == id then (j, jobs ++ job ∷ []) ∷ groups else (j, jobs) ∷ append_job id job groups

group_from : List (String × List PhJob) → List PhJob → List (String × List PhJob)
unfolding append_job
group_from groups [] = groups
group_from groups (job ∷ jobs) = group_from (append_job job.spec.group_id job groups) jobs

pub group_jobs : List PhJob → List (String × List PhJob)
unfolding group_from
group_jobs = group_from []

module _ ⦃api : Numeric⦄ where
  open api use {Float}

  module _ (tables : Unicode) (answers : Answers) where
    -- func validate
    pub validate : Quota → DtoGroup Float → Result Bool
    validate requested group = do
      group_quota ←
          convert_to_resource_quota group.project_quota_cpu group.project_quota_gpu
            group.project_quota_memory
      user_quota ← convert_to_resource_quota group.quota_cpu group.quota_gpu group.quota_memory
      ok (validate_resource requested user_quota && validate_resource requested group_quota)

    -- The part of the first loop of Schedule behind the group, up to `valid`.
    pub checked : PhJob → DtoGroup Float → Result Bool
    checked job group =
        requested_quota tables answers Site.validating job >>= λ requested. validate requested group

    admit_checked : PhJob → Result Bool → Admission
    admit_checked job (err e) = drop
    admit_checked job (ok true) = admit
    admit_checked job (ok false) =
        reject (reject_job PhJobReason.over_quota over_quota_message (answers.now job.key) job)

    -- The body of the first loop of Schedule. `filter` never filters and never fails.
    pub admission : PhJob → Admission
    unfolding admit_checked
    admission job = elim (answers.fetch_group Site.validating job.key job.spec.group_id) [
      | err e ↦ reject (
          reject_job PhJobReason.pod_creation_failed "cannot get group info" (answers.now job.key)
            job)
      | ok group ↦ admit_checked job (checked job group)
    ]

    pub admitted : List PhJob → List PhJob
    admitted [] = []
    admitted (job ∷ jobs) = elim (admission job) [ admit ↦ job ∷ admitted jobs | _ ↦ admitted jobs ]

    pub rejected : List PhJob → List PhJob
    rejected [] = []
    rejected (job ∷ jobs) = elim (admission job) [
      | reject written ↦ written ∷ rejected jobs
      | _ ↦ rejected jobs
    ]

    write_group : Result Quota → List PhJob → Writes
    write_group (err e) jobs = record { statuses = []; crashed = false }
    write_group (ok group) jobs =
        let pass = schedule_by_strict_order tables answers jobs [] group in
        if is_panicked pass.ending then record { statuses = []; crashed = true } else record {
          statuses = keep (λ job. is_preparing job.status.phase) pass.jobs;
          crashed = false;
        }

    -- The body of the loop over the groups. A group has a job.
    pub schedule_group : List PhJob → Writes
    unfolding write_group
    schedule_group [] = record { statuses = []; crashed = false }
    schedule_group (first ∷ jobs) =
        write_group (get_group_remaining_quota tables answers first) (first ∷ jobs)

    -- The loop over the groups; a panic ends the process.
    pub schedule_groups : List (String × List PhJob) → Writes
    schedule_groups [] = record { statuses = []; crashed = false }
    schedule_groups ((group_id, jobs) ∷ groups) =
        let writes = schedule_group (answers.sort jobs) in
        let rest = schedule_groups groups in
        if writes.crashed
        then writes
        else record { statuses = writes.statuses ++ rest.statuses; crashed = rest.crashed }

    -- func Schedule: the status updates that a pass sends, in their order, for the jobs that the API
    -- server lists.
    pub schedule : Result (List PhJob) → Writes
    schedule (err e) = record { statuses = []; crashed = false }
    schedule (ok items) =
        let jobs = pending_jobs items in
        let writes = schedule_groups (answers.range (group_jobs (admitted jobs))) in
        record { statuses = rejected jobs ++ writes.statuses; crashed = writes.crashed }
