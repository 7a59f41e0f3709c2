-- ===== src/JobPod.antt =====
-- ee/controllers/phjob_controller.go: the pod of a job, from reconcilePod down to the calls of the API
-- server. The answers of the cluster and of the other services to one call of Reconcile are a `Script`.
pub mod Additions
pub mod Build
pub mod Standing
pub mod Mounts
pub mod Labels
pub mod Limits
pub mod Memory
mod Samples
use primehub_controller.Prelude.{
  String, Bool, true, false, Option, none, some, [], Result, ok, err, Error, ℤ, ◌&&◌, if◌then◌else◌,
}
use primehub_controller.Kube.{PodPhase, PodStatus}
use primehub_controller.PhJob.{PhJobStatus, PhJob}
use primehub_controller.JobAct.{
  update_status, delete_pod, create_pod, notify, send_email, Act, pure, crash, emit, ◌>>=◌, ◌>>◌,
}
use primehub_controller.JobStatus.{
  Reading, is_not_found, is_already_exists, set_status, preparing_state_timeout,
  handle_create_pod_failed, requeue, creation_failed, observe, is_pod_final,
}

-- The answers to one call of Reconcile. `delete_get` and `delete_call` are the two calls of deletePod,
-- `first_status` the status update of updateStatus and `last_status` that of Reconcile. A pod is its
-- creation time and its status; `build_pod` is the error of buildPod, and a create call answers with the
-- pod as it is stored.
pub record Script : Type 0 where
  pub get_job : Result PhJob
  pub fetch_group_deadline : Result (Option ℤ)
  pub update_deadline : Option Error
  pub update_ttl : Option Error
  pub delete_get : Option Error
  pub delete_call : Option Error
  pub get_pod : Result (ℤ × PodStatus)
  pub build_pod : Option Error
  pub create_call : Result PodStatus
  pub first_status : Option Error
  pub last_status : Option Error
  pub fetch_email : Option Error
  pub send_call : Option Error
  pub now : Reading → ℤ
  pub error_text : Error → String

-- The settings of the reconciler.
pub record Settings : Type 0 where
  pub default_active_deadline_seconds : ℤ
  pub default_ttl_seconds_after_finished : ℤ
  pub smtp_enabled : Bool

module _ (settings : Settings) (script : Script) where
  -- func updatePhJobStatus
  unfoldable pub update_ph_job_status : Option Error → PhJob → Act (Option Error)
  update_ph_job_status none job = do emit (update_status job); pure none
  update_ph_job_status (some e) job = pure (some e)

  -- func deletePod
  unfoldable pub delete_found : Option Error → Act (Option Error)
  delete_found none = do emit delete_pod; pure none
  delete_found (some e) = pure (some e)

  unfoldable pub delete_pod_of_job : Act (Option Error)
  unfolding delete_found
  delete_pod_of_job = elim script.delete_get [
    | none ↦ delete_found script.delete_call
    | some e ↦ pure (if is_not_found e then none else some e)
  ]

  -- func notifyUser: `StartTime.Format` panics on a nil time.
  email_to : PhJob → Option ℤ → Act (Unit {0})
  email_to job none = crash
  email_to job (some start) = elim script.send_call [
    | none ↦ emit (send_email job.status.phase)
    | some e ↦ pure tt
  ]

  notify_user : PhJob → Act (Unit {0})
  unfolding email_to
  notify_user job = elim script.fetch_email [
    | some e ↦ pure tt
    | none ↦ email_to job job.status.start_time
  ]

  unfoldable pub announce : PodStatus → PhJob → Act (Unit {0})
  unfolding notify_user
  announce pod job =
      if is_pod_final pod.phase
      then (do
        emit (notify job.status.phase)
        if settings.smtp_enabled then notify_user job else pure tt)
      else pure tt

  unfoldable pub observed : PodStatus → PhJob → Option PhJobStatus → Act (PhJob × Option Error)
  unfolding announce update_ph_job_status
  observed pod job none = crash
  observed pod job (some status) = do
    let job' = set_status job status
    announce pod job'
    e ← update_ph_job_status script.first_status job'
    pure (job', e)

  -- func updateStatus with a pod
  unfoldable pub update_status_from_pod : PodStatus → PhJob → Act (PhJob × Option Error)
  unfolding observed
  update_status_from_pod pod job = observed pod job (observe script.now pod job.status)

  -- func updateStatus for phJobPreparingTimeout or admissionReject
  pub update_status_requeue : Bool → PhJob → Act (PhJob × Option Error)
  unfolding update_ph_job_status
  update_status_requeue admission_reject job = do
    let job' = set_status job (requeue admission_reject job.status)
    e ← update_ph_job_status script.first_status job'
    pure (job', e)

  -- func updateStatus for createPodFailed
  failed_update : PhJob → Option Error → Act (PhJob × Option Error)
  failed_update job none = do emit (notify job.status.phase); pure (job, none)
  failed_update job (some e) = pure (job, some e)

  pub update_status_creation_failed : String → PhJob → Act (PhJob × Option Error)
  unfolding update_ph_job_status failed_update
  update_status_creation_failed reason job = do
    let job' = set_status job (creation_failed (script.now Reading.finishing) reason job.status)
    e ← update_ph_job_status script.first_status job'
    failed_update job' e

  -- The pod that was built, as updateStatus sees it.
  abbrev pub new_pod : PodStatus
  new_pod = record {
    phase = PodPhase.unset;
    reason = "";
    message = "";
    start_time = none;
    conditions = [];
    container_statuses = [];
  }

  -- An error of the building or of the creation. The last argument goes on where it is ignored.
  refused : PhJob → Error → Act (PhJob × Option Error) → Act (PhJob × Option Error)
  refused job e ignored =
      if is_already_exists e
      then ignored
      else if handle_create_pod_failed (script.error_text e)
      then update_status_requeue true job
      else update_status_creation_failed (script.error_text e) job

  unfoldable pub created : PhJob → Result PodStatus → Act (PhJob × Option Error)
  unfolding refused
  created job (ok pod) = do
    emit create_pod
    update_status_from_pod pod (set_status job (record job.status { pod_name = job.key.name }))
  created job (err e) = refused job e (update_status_from_pod new_pod job)

  -- The part of reconcilePod for a pod that is not found. A pod that could not be built is nil.
  unfoldable pub create_pod_for_job : PhJob → Act (PhJob × Option Error)
  unfolding created
  create_pod_for_job job = elim script.build_pod [
    | none ↦ created job script.create_call
    | some e ↦ refused job e crash
  ]

  timed_out : PhJob → Option Error → Act (PhJob × Option Error)
  timed_out job none = update_status_requeue false job
  timed_out job (some e) = pure (job, some e)

  abbrev pub is_pod_pending : PodPhase → Bool
  is_pod_pending PodPhase.pending = true
  is_pod_pending _ = false

  pub existing_pod : PhJob → ℤ → PodStatus → Act (PhJob × Option Error)
  unfolding timed_out
  existing_pod job created_at pod =
      if is_pod_pending pod.phase
        && preparing_state_timeout (script.now Reading.preparing) created_at
      then (do e ← delete_pod_of_job; timed_out job e)
      else update_status_from_pod pod job

  -- func reconcilePod: the job with its new status, and the error.
  unfoldable pub reconcile_pod : PhJob → Act (PhJob × Option Error)
  reconcile_pod job = elim script.get_pod [
    | ok (created_at, pod) ↦ existing_pod job created_at pod
    | err e ↦ if is_not_found e then create_pod_for_job job else pure (job, some e)
  ]
