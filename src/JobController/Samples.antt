-- ===== src/JobController/Samples.antt =====
-- Calls of Reconcile for one job, with a cluster that answers every call.
use primehub_controller.Prelude.{
  ◌≡◌, refl, inl, ℕ, ◌==◌, ◌+ℤ◌, Bool, true, false, none, some, pos, ok, err, not_found, All, arith,
}
use primehub_controller.Kube.{PodPhase}
use primehub_controller.Quota.Samples.{no_pod_status}
use primehub_controller.PhJob.{PhJobPhase, PhJobStatus, PhJob}
use primehub_controller.StrictOrder.Samples.{alice}
use primehub_controller.JobAct.{done, ◌>>=◌}
use primehub_controller.JobPod.{
  Script, Settings, reconcile_pod, create_pod_for_job, created, update_status_from_pod, observed,
  announce,
}
use primehub_controller.JobStatus.{observe}
use primehub_controller.JobController.Limits.{
  one_minute, past_active_deadline, prologue, failure, exceeds_requeue_limit,
}
use primehub_controller.JobController.{dispatch, pod_of, reconcile}
use primehub_controller.JobController.Gate.{may_run, reconcile-creates}
use primehub_controller.JobController.Leaves.{LeavesPhase}
use primehub_controller.JobController.Finished.{reconcile-LeavesPhase}
use primehub_controller.JobController.Ends.{Runs}
use primehub_controller.JobController.Outcome.{reconcile-cancels, reconcile-OverDeadline}

abbrev settings : Settings
settings = record {
  default_active_deadline_seconds = pos 86400;
  default_ttl_seconds_after_finished = pos 604800;
  smtp_enabled = false;
}

abbrev script_for : PhJob → Script
script_for job = record {
  get_job = ok job;
  fetch_group_deadline = ok none;
  update_deadline = none;
  update_ttl = none;
  delete_get = none;
  delete_call = none;
  get_pod = err not_found;
  build_pod = none;
  create_call = ok (no_pod_status PodPhase.pending);
  first_status = none;
  last_status = none;
  fetch_email = none;
  send_call = none;
  now = λ reading. pos 5000000000000;
  error_text = λ e. "";
}

-- Two statuses are taken to be equal where their phases are, which the number of a phase tells.
abbrev code : PhJobPhase → ℕ
code PhJobPhase.unset = 0
code PhJobPhase.pending = 1
code PhJobPhase.preparing = 2
code PhJobPhase.running = 3
code PhJobPhase.succeeded = 4
code PhJobPhase.failed = 5
code PhJobPhase.cancelled = 6
code PhJobPhase.unknown = 7

abbrev same_phase : PhJobStatus → PhJobStatus → Bool
same_phase s t = code s.phase == code t.phase

code-injective : (p q : PhJobPhase) → (code p == code q) ≡ true → p ≡ q
code-injective p q e = ground arith

same_phase-TellsPhases : (s t : PhJobStatus) → same_phase s t ≡ true → s.phase ≡ t.phase
same_phase-TellsPhases s t e = code-injective s.phase t.phase e

abbrev in_phase : PhJobPhase → PhJob
in_phase phase = record alice { status = record alice.status { phase = phase } }

abbrev cancelled_alice : PhJob
cancelled_alice = record alice { spec = record alice.spec { cancel = true } }

abbrev requeued_alice : PhJob
requeued_alice = record alice { status = record alice.status { requeued = some (pos 4) } }

-- A job that started at the second 1000 and has an hour.
abbrev late_alice : PhJob
late_alice = record alice {
  status = record alice.status {
    phase = PhJobPhase.running;
    start_time = some (pos 1000000000000);
  };
}

reconcile-creates_example :
    ((in_phase PhJobPhase.preparing).spec.cancel ≡ false) × (may_run PhJobPhase.preparing ≡ true)
unfolding reconcile ◌>>=◌ dispatch prologue failure exceeds_requeue_limit past_active_deadline
    pod_of reconcile_pod create_pod_for_job created update_status_from_pod observed announce observe
reconcile-creates_example =
    reconcile-creates same_phase settings (script_for (in_phase PhJobPhase.preparing))
      (in_phase PhJobPhase.preparing) refl refl

reconcile-LeavesPhase_example :
    All
      (LeavesPhase PhJobPhase.succeeded)
      (reconcile same_phase settings (script_for (in_phase PhJobPhase.succeeded))).effects
reconcile-LeavesPhase_example =
    reconcile-LeavesPhase same_phase settings (script_for (in_phase PhJobPhase.succeeded))
      (in_phase PhJobPhase.succeeded) refl refl refl

reconcile-cancels_example :
    Runs PhJobPhase.pending
      (reconcile same_phase settings (script_for cancelled_alice))
      PhJobPhase.cancelled
      (done (pos 0) none)
reconcile-cancels_example =
    reconcile-cancels same_phase settings (script_for cancelled_alice) cancelled_alice
      same_phase-TellsPhases (refl, refl, refl, inl (refl, refl)) refl refl

reconcile-OverDeadline_example :
    Runs PhJobPhase.running
      (reconcile same_phase settings (script_for late_alice))
      PhJobPhase.failed
      (done one_minute none)
unfolding ◌+ℤ◌
reconcile-OverDeadline_example =
    reconcile-OverDeadline same_phase settings (script_for late_alice) late_alice 3600
      (pos 1000000000000) same_phase-TellsPhases (refl, refl, refl, inl (refl, refl)) refl refl refl
      (omega arith) (omega arith) refl refl (omega arith)
