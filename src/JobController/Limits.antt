-- ===== src/JobController/Limits.antt =====
-- ee/controllers/phjob_controller.go: the limits of a job, and what they make of its status.
use Prim.Native.String.{◌++◌ as ◌+++◌}
use primehub_controller.Prelude.{
  String, Bool, false, Option, none, some, ℤ, pos, ltb_ℤ, leb_ℤ, not, ◌&&◌, if◌then◌else◌,
}
use primehub_controller.GoTime.{seconds, sub_time}
use primehub_controller.PhJob.{PhJobPhase, PhJobReason, PhJobStatus, PhJob}
use primehub_controller.JobStatus.{or_now}

-- errorCheckAfter and nextCheck, one minute.
abbrev pub one_minute : ℤ
one_minute = pos 60000000000

-- A pointer that the defaults of Reconcile have set.
abbrev pub value_of : Option ℤ → ℤ
value_of (some n) = n
value_of none = pos 0

abbrev pub is_zero : ℤ → Bool
is_zero a = leb_ℤ a (pos 0) && leb_ℤ (pos 0) a

-- The first two changes to the status.
unfoldable pub first_phase : PhJobPhase → PhJobStatus → PhJobStatus
first_phase PhJobPhase.unset status = record status {
  phase = PhJobPhase.pending;
  reason = PhJobReason.over_quota;
  message = "Insufficient group/user quota";
}
first_phase _ status = status

unfoldable pub prologue : PhJobStatus → PhJobStatus
unfolding first_phase
prologue status =
    let s = first_phase status.phase status in
    record s { requeued = elim s.requeued [ none ↦ some (pos 0) | some n ↦ some n ] }

unfoldable pub cancelled_status : ℤ → PhJobStatus → PhJobStatus
cancelled_status now status = record status {
  phase = PhJobPhase.cancelled;
  reason = PhJobReason.cancelled;
  message = "Cancelled by user";
  finish_time = or_now status.finish_time now;
}

-- func pastActiveDeadline
unfoldable pub past_active_deadline : ℤ → ℤ → Option ℤ → Bool
past_active_deadline now deadline none = false
past_active_deadline now deadline (some start) =
    not (is_zero deadline) && leb_ℤ (seconds deadline) (sub_time now start)

-- *phJob.Status.Requeued > *phJob.Spec.RequeueLimit, where there is a limit.
unfoldable pub exceeds_requeue_limit : Option ℤ → ℤ → Bool
exceeds_requeue_limit none requeued = false
exceeds_requeue_limit (some limit) requeued = ltb_ℤ limit requeued

-- Whether the job exceeds a limit, and why.
unfoldable pub failure : ℤ → PhJob → Option (PhJobReason × String)
failure now job =
    if exceeds_requeue_limit job.spec.requeue_limit (value_of job.status.requeued)
    then some (
      PhJobReason.over_requeue_limit,
      "phJob has failed because it was requeued more than specified times",
    )
    else if past_active_deadline now (value_of job.spec.active_deadline_seconds)
        job.status.start_time
    then some (
      PhJobReason.over_activate_deadline,
      "phJob has failed because it was active longer than specified deadline",
    )
    else none

unfoldable pub exceeded_status : ℤ → PhJobReason → String → PhJobStatus → PhJobStatus
exceeded_status now reason text status = record status {
  finish_time = or_now status.finish_time now;
  phase = PhJobPhase.failed;
  reason = reason;
  message = "Job failed due to System Error: " +++ text;
}

-- `FinishTime = StartTime` in handleTTL, for a job with a start time only.
unfoldable pub ttl_status : PhJobStatus → PhJobStatus
ttl_status status = elim status.finish_time [
  | some t ↦ status
  | none ↦ record status { finish_time = status.start_time }
]
