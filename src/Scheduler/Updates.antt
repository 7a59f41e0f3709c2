-- ===== src/Scheduler/Updates.antt =====
-- Which status updates a pass of the scheduler sends.
use primehub_controller.Prelude.{
  String, Bool, Bool-cases, true, false, ◌≡◌, refl, inl, inr, List, [], ◌∷◌, ◌++◌, arith, All,
  All-append, All-map, ℤ, Result, Result-cases, ok, err,
}
use primehub_controller.Numeric.{Numeric}
use primehub_controller.Escapism.{Unicode}
use primehub_controller.Quota.{Quota}
use primehub_controller.PhJob.{PhJobReason, PhJob, is_pending}
use primehub_controller.StrictOrder.{
  Site, Answers, prepare, schedule_by_strict_order, is_panicked, get_group_remaining_quota,
}
use primehub_controller.StrictOrder.Promotions.{IsPromotion, granted-IsPromotion}
use primehub_controller.Scheduler.{
  reject_job, over_quota_message, Admission, admit, drop, reject, admission, admit_checked, checked,
  admitted, rejected, pending_jobs, append_job, group_from, group_jobs, write_group, schedule_group,
  schedule_groups, schedule,
}

module _ ⦃api : Numeric⦄ (tables : Unicode) (answers : Answers) (P : PhJob → Type 0) where
  -- A status update for a job of the queue: to Preparing, or to Failed with a reason and a finish time.
  pub data IsUpdate (written : PhJob) : Type 0 where
    to_preparing : (job : PhJob) → P job → written ≡ prepare job → IsUpdate written
    to_failed :
        (job : PhJob) (reason : PhJobReason) (text : String) (now : ℤ)
        → P job
        → written ≡ reject_job reason text now job
        → IsUpdate written

  admit_checked-IsUpdate :
      (job : PhJob) (valid : Result Bool) (written : PhJob)
      → P job
      → admit_checked tables answers job valid ≡ reject written
      → IsUpdate written
  unfolding admit_checked
  admit_checked-IsUpdate job (err e) written h eq = absurd (cc)
  admit_checked-IsUpdate job (ok true) written h eq = absurd (cc)
  admit_checked-IsUpdate job (ok false) written h eq =
      to_failed job PhJobReason.over_quota over_quota_message (answers.now job.key) h (cc)

  admission-IsUpdate :
      (job written : PhJob)
      → P job
      → admission tables answers job ≡ reject written
      → IsUpdate written
  unfolding admission
  admission-IsUpdate job written h eq =
      elim (Result-cases (answers.fetch_group Site.validating job.key job.spec.group_id)) [
        | inl (x, failed) ↦
            let rejected : reject _ ≡ reject written = rw (failed, admission) at eq in
            to_failed job PhJobReason.pod_creation_failed "cannot get group info"
              (answers.now job.key) h (cc)
        | inr (group, found) ↦
            admit_checked-IsUpdate job (checked tables answers job group) written h
              (rw (found, admission) at eq)
      ]

  rejected-IsUpdate : (jobs : List PhJob) → All P jobs → All IsUpdate (rejected tables answers jobs)
  unfolding rejected
  rejected-IsUpdate [] h = tt
  rejected-IsUpdate (job ∷ jobs) h =
      step (admission tables answers job) refl (rejected-IsUpdate jobs h.1)
    where
      step :
          (a : Admission)
          → admission tables answers job ≡ a
          → All IsUpdate (rejected tables answers jobs)
          → All IsUpdate (rejected tables answers (job ∷ jobs))
      step admit e ih = rw (e, rejected) ih
      step drop e ih = rw (e, rejected) ih
      step (reject written) e ih = rw (e, rejected) (admission-IsUpdate job written h.0 e, ih)

  admitted-All : (jobs : List PhJob) → All P jobs → All P (admitted tables answers jobs)
  unfolding admitted
  admitted-All [] h = tt
  admitted-All (job ∷ jobs) h = ground (arith, admitted-All jobs h.1)

-- What the passes over the groups need of sort.Slice and of the order of a `range`: they show only
-- what they are given.
pub record Shows ⦃api : Numeric⦄ (answers : Answers) : Type 1 where
  pub sort_shows : (P : PhJob → Type 0) (jobs : List PhJob) → All P jobs → All P (answers.sort jobs)
  pub range_shows :
      (P : String × List PhJob → Type 0) (groups : List (String × List PhJob))
      → All P groups
      → All P (answers.range groups)

module _ (P : PhJob → Type 0) where
  abbrev OfGroup : String × List PhJob → Type 0
  OfGroup group = All P group.1

  All-snoc : (jobs : List PhJob) (job : PhJob) → All P jobs → P job → All P (jobs ++ job ∷ [])
  All-snoc [] job h k = (k, tt)
  All-snoc (x ∷ jobs) job h k = (h.0, All-snoc jobs job h.1 k)

  append_job-OfGroup :
      (id : String) (job : PhJob) (groups : List (String × List PhJob))
      → P job
      → All OfGroup groups
      → All OfGroup (append_job id job groups)
  unfolding append_job
  append_job-OfGroup id job [] k h = ((k, tt), tt)
  append_job-OfGroup id job ((j, jobs) ∷ groups) k h =
      ground (arith, All-snoc jobs job h.0 k, append_job-OfGroup id job groups k h.1)

  group_from-OfGroup :
      (groups : List (String × List PhJob)) (jobs : List PhJob)
      → All OfGroup groups
      → All P jobs
      → All OfGroup (group_from groups jobs)
  unfolding group_from
  group_from-OfGroup groups [] h k = h
  group_from-OfGroup groups (job ∷ jobs) h k =
      group_from-OfGroup (append_job job.spec.group_id job groups) jobs
        (append_job-OfGroup job.spec.group_id job groups k.0 h) k.1

module _ ⦃api : Numeric⦄ (tables : Unicode) (answers : Answers) (P : PhJob → Type 0) where
  -- A listed job that is pending.
  abbrev pub Queued : PhJob → Type 0
  Queued job = P job × (is_pending job.status.phase ≡ true)

  pending_jobs-Queued : (items : List PhJob) → All P items → All Queued (pending_jobs items)
  pending_jobs-Queued [] h = tt
  pending_jobs-Queued (job ∷ items) h = elim (Bool-cases (is_pending job.status.phase)) [
    | inl pending ↦ rw pending ((h.0, pending), pending_jobs-Queued items h.1)
    | inr other ↦ rw other (pending_jobs-Queued items h.1)
  ]

  write_group-IsUpdate :
      (quota : Result Quota) (jobs : List PhJob)
      → All Queued jobs
      → All (IsUpdate tables answers Queued) (write_group tables answers quota jobs).statuses
  unfolding write_group
  write_group-IsUpdate (err e) jobs h = tt
  write_group-IsUpdate (ok group) jobs h =
      elim (Bool-cases
        (is_panicked (schedule_by_strict_order tables answers jobs [] group).ending)) [
          | inl panicked ↦ rw panicked tt
          | inr going ↦ rw going (
              All-map (IsPromotion tables answers Queued) _
                (λ written (job, held, same). to_preparing job held same)
                (granted-IsPromotion tables answers Queued jobs
                  (All-map Queued jobs (λ job q. q.1) h) h [] group))
        ]

  schedule_group-IsUpdate :
      (jobs : List PhJob)
      → All Queued jobs
      → All (IsUpdate tables answers Queued) (schedule_group tables answers jobs).statuses
  unfolding schedule_group
  schedule_group-IsUpdate [] h = tt
  schedule_group-IsUpdate (job ∷ jobs) h =
      write_group-IsUpdate (get_group_remaining_quota tables answers job) (job ∷ jobs) h

  schedule_groups-IsUpdate :
      (groups : List (String × List PhJob))
      → All (OfGroup Queued) groups
      → Shows answers
      → All (IsUpdate tables answers Queued) (schedule_groups tables answers groups).statuses
  unfolding schedule_groups
  schedule_groups-IsUpdate [] h shows = tt
  schedule_groups-IsUpdate ((id, jobs) ∷ groups) h shows =
      let here = schedule_group-IsUpdate (answers.sort jobs) (shows.sort_shows Queued jobs h.0) in
      let rest = schedule_groups-IsUpdate groups h.1 shows in
      elim (Bool-cases (schedule_group tables answers (answers.sort jobs)).crashed) [
        | inl crashed ↦ rw crashed here
        | inr going ↦ rw going (All-append (IsUpdate tables answers Queued) _ _ here rest)
      ]

  -- Every status update that a pass sends is for a listed job whose phase is Pending: it sets that job to
  -- Preparing and leaves the rest of it alone, or to Failed with a reason, a message and a finish
  -- time. `P` is any predicate that holds of the listed jobs, such as membership in the list.
  pub schedule-IsUpdate :
      Shows answers
      → (items : List PhJob) → All P items
      → All (IsUpdate tables answers Queued) (schedule tables answers (ok items)).statuses
  unfolding schedule group_jobs
  schedule-IsUpdate shows items h =
      let queued = pending_jobs-Queued items h in
      All-append (IsUpdate tables answers Queued) _ _
        (rejected-IsUpdate tables answers Queued (pending_jobs items) queued)
        (schedule_groups-IsUpdate _
          (shows.range_shows (OfGroup Queued) _ (
            group_from-OfGroup Queued [] (admitted tables answers (pending_jobs items)) tt
              (admitted-All tables answers Queued (pending_jobs items) queued)))
          shows)
