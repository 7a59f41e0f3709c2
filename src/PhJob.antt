-- ===== src/PhJob.antt =====
-- ee/api/v1alpha1/phjob_types.go. An int32 or int64 is an integer in its range, a nil pointer `none`.
use primehub_controller.Prelude.{String, Bool, true, false, Option, ℤ, ltb_ℤ}
use primehub_controller.Kube.{ObjectKey}

-- PhJobPhase; the phase of a job that no controller has seen is the empty text.
pub data PhJobPhase : Type 0 where
  unset pending preparing running succeeded failed cancelled unknown : PhJobPhase

-- PhJobReason
pub data PhJobReason : Type 0 where
  no_reason over_requeue_limit over_activate_deadline over_quota cancelled : PhJobReason
  pod_creation_failed pod_failed pod_unknown pod_pending pod_running pod_succeeded : PhJobReason

pub record PhJobSpec : Type 0 where
  pub display_name : String
  pub user_id : String
  pub user_name : String
  pub group_id : String
  pub group_name : String
  pub instance_type : String
  pub image : String
  pub command : String
  pub cancel : Bool
  pub requeue_limit : Option ℤ
  pub active_deadline_seconds : Option ℤ
  pub ttl_seconds_after_finished : Option ℤ

pub record PhJobStatus : Type 0 where
  pub phase : PhJobPhase
  pub reason : PhJobReason
  pub message : String
  pub pod_name : String
  pub start_time : Option ℤ
  pub finish_time : Option ℤ
  pub requeued : Option ℤ

pub record PhJob : Type 0 where
  pub key : ObjectKey
  pub creation_timestamp : ℤ
  pub spec : PhJobSpec
  pub status : PhJobStatus

abbrev pub is_pending : PhJobPhase → Bool
is_pending PhJobPhase.pending = true
is_pending _ = false

abbrev pub is_preparing : PhJobPhase → Bool
is_preparing PhJobPhase.preparing = true
is_preparing _ = false

-- func inFinalPhase
abbrev pub in_final_phase : PhJobPhase → Bool
in_final_phase PhJobPhase.succeeded = true
in_final_phase PhJobPhase.failed = true
in_final_phase PhJobPhase.unknown = true
in_final_phase PhJobPhase.cancelled = true
in_final_phase _ = false

-- func compareByCreationTimestamp
abbrev pub compare_by_creation_timestamp : PhJob → PhJob → Bool
compare_by_creation_timestamp job1 job2 = ltb_ℤ job1.creation_timestamp job2.creation_timestamp
