-- ===== src/JobStatus.antt =====
-- ee/controllers/phjob_controller.go: how updateStatus changes the status of a job, and the tests on which
-- it depends.
pub mod Mapping
mod Samples
use Prim.Native.String.{◌++◌ as ◌+++◌}
use text.Mathlib.Text.{find?, ◌==◌}
use primehub_controller.Prelude.{
  String, Bool, true, false, Option, none, some, List, [], ◌∷◌, Result, ok, err, Error, not_found,
  already_exists, ℤ, pos, ◌+ℤ◌, leb_ℤ, ◌&&◌, if◌then◌else◌,
}
use primehub_controller.GoTime.{int32, sub_time}
use primehub_controller.Kube.{PodPhase, PodCondition, PodStatus, Terminated}
use primehub_controller.PhJob.{PhJobPhase, PhJobReason, PhJobStatus, PhJob}
use primehub_controller.JobAct.{
  update_status, delete_pod, create_pod, notify, send_email, Act, pure, crash, emit, ◌>>=◌, ◌>>◌,
}

-- The places at which the clock is read.
pub data Reading : Type 0 where
  cancelling finishing deadline ttl rest_of_ttl requeueing preparing starting : Reading

abbrev pub is_not_found : Error → Bool
is_not_found not_found = true
is_not_found _ = false

abbrev pub is_already_exists : Error → Bool
is_already_exists already_exists = true
is_already_exists _ = false

-- strings.Contains
abbrev pub contains : String → String → Bool
contains s t = elim (find? s t) [ some i ↦ true | none ↦ false ]

abbrev pub set_status : PhJob → PhJobStatus → PhJob
set_status job status = record job { status = status }

-- if phJob.Status.FinishTime == nil { now := metav1.Now(); phJob.Status.FinishTime = &now }
abbrev pub or_now : Option ℤ → ℤ → Option ℤ
or_now (some t) now = some t
or_now none now = some now

-- DefaultJobPreparingTimeout, 180 seconds.
abbrev pub default_job_preparing_timeout : ℤ
default_job_preparing_timeout = pos 180000000000

-- func preparingStateTimeout
unfoldable pub preparing_state_timeout : ℤ → ℤ → Bool
preparing_state_timeout now created = leb_ℤ default_job_preparing_timeout (sub_time now created)

-- func handleCreatePodFailed
unfoldable pub handle_create_pod_failed : String → Bool
handle_create_pod_failed text =
    contains text "admission webhook" && contains text "resources-validation-webhook"

abbrev pub back_to_pending : String
back_to_pending = "Back to pending due to:"

-- The part of updateStatus for a job that goes back to the queue.
unfoldable pub requeue : Bool → PhJobStatus → PhJobStatus
requeue admission_reject status = record status {
  requeued = elim status.requeued [ none ↦ none | some n ↦ some (int32 (n +ℤ pos 1)) ];
  phase = PhJobPhase.pending;
  reason = if admission_reject then PhJobReason.over_quota else status.reason;
  message =
      if admission_reject
      then "Back to pending due to: insufficient group/user quota"
      else if contains status.message back_to_pending
      then status.message
      else "Back to pending due to: " +++ status.message;
}

-- The part of updateStatus for a pod that could not be created.
unfoldable pub creation_failed : ℤ → String → PhJobStatus → PhJobStatus
creation_failed now reason status = record status {
  phase = PhJobPhase.failed;
  reason = PhJobReason.pod_creation_failed;
  message = reason;
  finish_time = some now;
}

-- The failure of the first container; `none` is the panic where its state is not Terminated.
failed_status : List (Option Terminated) → PhJobStatus → Option PhJobStatus
failed_status [] status = some status
failed_status (none ∷ rest) status = none
failed_status (some t ∷ rest) status = some (record status {
  reason = PhJobReason.pod_failed;
  message = "Job failed due to " +++ t.reason +++ ": " +++ t.message;
})

unknown_status : List PodCondition → PhJobStatus → PhJobStatus
unknown_status [] status = status
unknown_status (c ∷ rest) status = record status {
  reason = PhJobReason.pod_unknown;
  message = "[" +++ c.reason +++ "] " +++ c.message;
}

pending_status : List PodCondition → PhJobStatus → PhJobStatus
pending_status [] status = status
pending_status (c ∷ rest) status = record status {
  reason = PhJobReason.pod_pending;
  message = c.message;
}

-- The five tests of updateStatus on the phase of the pod.
observe_phase : (Reading → ℤ) → PodStatus → PodPhase → PhJobStatus → Option PhJobStatus
unfolding failed_status unknown_status pending_status
observe_phase now pod PodPhase.unset status = some status
observe_phase now pod PodPhase.succeeded status = some (record status {
  phase = PhJobPhase.succeeded;
  finish_time = or_now status.finish_time (now Reading.finishing);
  reason = PhJobReason.pod_succeeded;
  message = "Job completed";
})
observe_phase now pod PodPhase.failed status = failed_status pod.container_statuses (record status {
  phase = PhJobPhase.failed;
  finish_time = or_now status.finish_time (now Reading.finishing);
})
observe_phase now pod PodPhase.unknown status = some (
    unknown_status pod.conditions (record status {
      phase = PhJobPhase.unknown;
      finish_time = or_now status.finish_time (now Reading.finishing);
    }))
observe_phase now pod PodPhase.pending status = some (pending_status pod.conditions status)
observe_phase now pod PodPhase.running status = some (record status {
  phase = PhJobPhase.running;
  start_time = or_now status.start_time (now Reading.starting);
  reason = PhJobReason.pod_running;
  message = if pod.reason == "NodeLost" then pod.message else "Job is currently running";
})

unfoldable pub observe : (Reading → ℤ) → PodStatus → PhJobStatus → Option PhJobStatus
unfolding observe_phase
observe now pod status = observe_phase now pod pod.phase status

-- The pod phases for which updateStatus tells the user.
abbrev pub is_pod_final : PodPhase → Bool
is_pod_final PodPhase.succeeded = true
is_pod_final PodPhase.failed = true
is_pod_final PodPhase.unknown = true
is_pod_final _ = false
