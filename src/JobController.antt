-- ===== src/JobController.antt =====
-- ee/controllers/phjob_controller.go: Reconcile of a job.
pub mod Limits
pub mod Gate
pub mod Finished
pub mod Leaves
pub mod Ends
pub mod Outcome
mod Samples
use Prim.Native.String.{◌++◌ as ◌+++◌}
use primehub_controller.Prelude.{
  String, Bool, true, false, Option, none, some, Result, ok, err, Error, ℤ, pos, ◌+ℤ◌, ltb_ℤ, leb_ℤ,
  not, ◌&&◌, ◌||◌, if◌then◌else◌,
}
use primehub_controller.GoTime.{seconds, sub_time, add_time, after}
use primehub_controller.PhJob.{
  PhJobPhase, PhJobReason, PhJobSpec, PhJobStatus, PhJob, is_pending, in_final_phase,
}
use primehub_controller.JobAct.{Effect, update_job, notify, Act, pure, return, emit, ◌>>=◌, ◌>>◌}
use primehub_controller.JobPod.{
  Script, Settings, update_ph_job_status, delete_pod_of_job, reconcile_pod,
}
use primehub_controller.JobStatus.{Reading, is_not_found, set_status, or_now}
use primehub_controller.JobController.Limits.{
  cancelled_status, exceeded_status, failure, is_zero, one_minute, prologue, ttl_status, value_of,
}

-- `equal` is apiequality.Semantic.DeepEqual on two statuses.
module _ (equal : PhJobStatus → PhJobStatus → Bool) (settings : Settings) (script : Script) where
  pub fetched : Act PhJob
  fetched = elim script.get_job [ ok job ↦ pure job | err e ↦ return (pos 0) none ]

  stored : PhJob → Option Error → Act PhJob
  stored job none = do emit (update_job job); pure job
  stored job (some e) = return one_minute (some e)

  deadline_of_group : Result (Option ℤ) → ℤ
  deadline_of_group (ok (some n)) = n
  deadline_of_group _ = settings.default_active_deadline_seconds

  pub default_deadline : PhJob → Act PhJob
  unfolding stored deadline_of_group
  default_deadline job = elim job.spec.active_deadline_seconds [
    | some n ↦ pure job
    | none ↦
        stored
          (record job {
            spec = record job.spec {
              active_deadline_seconds = some (deadline_of_group script.fetch_group_deadline);
            };
          })
          script.update_deadline
  ]

  pub default_ttl : PhJob → Act PhJob
  unfolding stored
  default_ttl job = elim job.spec.ttl_seconds_after_finished [
    | some n ↦ pure job
    | none ↦
        stored
          (record job {
            spec = record job.spec {
              ttl_seconds_after_finished = some settings.default_ttl_seconds_after_finished;
            };
          })
          script.update_ttl
  ]

  -- if !apiequality.Semantic.DeepEqual(*oldStatus, phJob.Status), with the error return
  check_update : Option Error → Act (Unit {0})
  check_update none = pure tt
  check_update (some e) = return one_minute (some e)

  pub save_status : PhJobStatus → PhJob → Act (Unit {0})
  unfolding check_update
  save_status old job =
      if equal old job.status
      then pure tt
      else update_ph_job_status settings script script.last_status job >>= check_update

  -- The same, and the message to the user behind it.
  save_and_notify : PhJobStatus → PhJob → Act (Unit {0})
  unfolding check_update
  save_and_notify old job = if equal old job.status then pure tt else (do
    e ← update_ph_job_status settings script script.last_status job
    check_update e
    emit (notify job.status.phase))

  check_delete : ℤ → Option Error → Act (Unit {0})
  check_delete requeue_after none = pure tt
  check_delete requeue_after (some e) = return requeue_after (some e)

  pub cancel_branch : PhJobStatus → PhJob → Act (Unit {0})
  unfolding check_delete save_and_notify
  cancel_branch old job = do
    e ← delete_pod_of_job settings script
    check_delete (pos 0) e
    let job' = set_status job (cancelled_status (script.now Reading.cancelling) job.status)
    save_and_notify old job'
    return (pos 0) none

  -- The deletion of handleTTL. A pod that is not found is no error.
  expire : ℤ → Option ℤ → Act (Unit {0})
  unfolding check_delete
  expire ttl none = pure tt
  expire ttl (some finish) =
      if after (script.now Reading.ttl) (add_time finish (seconds ttl))
      then (do
        e ← delete_pod_of_job settings script
        check_delete one_minute
            (elim e [ none ↦ none | some x ↦ if is_not_found x then none else some x ]))
      else pure tt

  -- func handleTTL
  pub handle_ttl : PhJob → Act PhJob
  unfolding expire
  handle_ttl job =
      let ttl = value_of job.spec.ttl_seconds_after_finished in
      let job' = set_status job (ttl_status job.status) in
      if is_zero ttl then pure job else (do expire ttl job'.status.finish_time; pure job')

  -- What is left of the TTL of a finished job.
  pub after_ttl : ℤ → Option ℤ → Act (Unit {0})
  after_ttl ttl none = return (pos 0) none
  after_ttl ttl (some finish) =
      let next = sub_time (add_time finish (seconds ttl)) (script.now Reading.rest_of_ttl) in
      if not (is_zero ttl) && ltb_ℤ (pos 0) next then return next none else return (pos 0) none

  final_branch : PhJobStatus → PhJob → Act (Unit {0})
  unfolding handle_ttl save_status after_ttl
  final_branch old job = do
    job' ← handle_ttl job
    save_status old job'
    after_ttl (value_of job'.spec.ttl_seconds_after_finished) job'.status.finish_time

  pub exceeded_branch : PhJobStatus → PhJob → PhJobReason → String → Act (Unit {0})
  unfolding check_delete save_and_notify
  exceeded_branch old job reason text = do
    e ← delete_pod_of_job settings script
    check_delete (pos 0) e
    let job' =
        set_status job (exceeded_status (script.now Reading.finishing) reason text job.status)
    save_and_notify old job'
    return one_minute none

  -- The result of Reconcile for a job that was looked after.
  next_check : PhJob → Option ℤ → Act (Unit {0})
  next_check job start =
      let ttl = value_of job.spec.ttl_seconds_after_finished in
      let deadline = value_of job.spec.active_deadline_seconds in
      if in_final_phase job.status.phase && not (is_zero ttl)
      then return (seconds ttl) none
      else elim start [
        | none ↦ return one_minute none
        | some t ↦
            if is_zero deadline
            then return one_minute none
            else return (sub_time (add_time t (seconds deadline)) (script.now Reading.requeueing))
                none
      ]

  check_pod : PhJob → Option Error → Act PhJob
  check_pod job none = pure job
  check_pod job (some e) = return one_minute (some e)

  -- Only a job that is not pending has its pod reconciled.
  pub pod_of : PhJob → Act PhJob
  unfolding check_pod
  pod_of job =
      if is_pending job.status.phase
      then pure job
      else (do result ← reconcile_pod settings script job; check_pod result.0 result.1)

  active_branch : PhJobStatus → PhJob → Act (Unit {0})
  unfolding pod_of save_status next_check
  active_branch old job = do
    job' ← pod_of job
    save_status old job'
    next_check job' job'.status.start_time

  -- Reconcile behind the two defaults.
  pub dispatch : PhJobStatus → PhJob → Act (Unit {0})
  unfolding cancel_branch final_branch exceeded_branch active_branch
  dispatch old job =
      if job.spec.cancel
      then cancel_branch old job
      else if in_final_phase job.status.phase
      then final_branch old job
      else elim (failure (script.now Reading.deadline) job) [
        | some (reason, text) ↦ exceeded_branch old job reason text
        | none ↦ active_branch old job
      ]

  -- func Reconcile
  pub reconcile : Act (Unit {0})
  unfolding fetched default_deadline default_ttl
  reconcile = do
    job ← fetched
    with_deadline ← default_deadline job
    with_ttl ← default_ttl with_deadline
    dispatch with_ttl.status (set_status with_ttl (prologue with_ttl.status))
