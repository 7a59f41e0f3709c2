-- ===== src/JobStatus/Mapping.antt =====
-- How the status of a job follows the phase of its pod.
use primehub_controller.Prelude.{
  Bool, true, false, Option, none, some, List, ◌∷◌, ◌≡◌, ℤ, arith, ◌↔◌, ◌≢◌,
}
use primehub_controller.Kube.{PodPhase, PodStatus, Terminated}
use primehub_controller.PhJob.{PhJobPhase, PhJobStatus}
use primehub_controller.JobStatus.{
  Reading, failed_status, unknown_status, pending_status, observe_phase, observe, is_pod_final,
}

-- The phase of a job whose pod is seen in a phase.
abbrev pub phase_after : PodPhase → PhJobPhase → PhJobPhase
phase_after PodPhase.succeeded before = PhJobPhase.succeeded
phase_after PodPhase.failed before = PhJobPhase.failed
phase_after PodPhase.unknown before = PhJobPhase.unknown
phase_after PodPhase.running before = PhJobPhase.running
phase_after PodPhase.pending before = before
phase_after PodPhase.unset before = before

-- A time that is set stays as it is.
abbrev pub KeepsTime : Option ℤ → Option ℤ → Type 0
KeepsTime (some t) after = after ≡ some t
KeepsTime none after = Unit {0}

pub record Follows (phase : PodPhase) (before after : PhJobStatus) : Type 0 where
  pub new_phase : after.phase ≡ phase_after phase before.phase
  pub same_pod : after.pod_name ≡ before.pod_name
  pub same_requeued : after.requeued ≡ before.requeued
  pub keeps_start : KeepsTime before.start_time after.start_time
  pub keeps_finish : KeepsTime before.finish_time after.finish_time
  pub has_start : phase ≡ PodPhase.running → after.start_time ≢ none
  pub has_finish : is_pod_final phase ≡ true → after.finish_time ≢ none

observe_phase-Follows :
    (now : Reading → ℤ) (pod : PodStatus) (phase : PodPhase) (before after : PhJobStatus)
    → observe_phase now pod phase before ≡ some after
    → Follows phase before after
unfolding observe_phase failed_status unknown_status pending_status
observe_phase-Follows now pod phase before after h = record {
  new_phase = ground arith;
  same_pod = ground arith;
  same_requeued = ground arith;
  keeps_start = keeps_s;
  keeps_finish = keeps_f;
  has_start = λ e k. absurd (ground arith);
  has_finish = λ e k. absurd (ground arith);
}
  where
    keeps_s : KeepsTime before.start_time after.start_time
    keeps_s = ground arith

    keeps_f : KeepsTime before.finish_time after.finish_time
    keeps_f = ground arith

-- A pod in any phase moves the job to the phase that belongs to it and leaves the phase of the job where
-- none does; the pod's name, the requeue counter and the times that are set stay, a running pod's job
-- has a start time, and a finished pod's job a finish time.
pub observe-Follows :
    (now : Reading → ℤ) (pod : PodStatus) (before after : PhJobStatus)
    → observe now pod before ≡ some after
    → Follows pod.phase before after
unfolding observe
observe-Follows now pod before after h = observe_phase-Follows now pod pod.phase before after h

-- Whether the first container has a status that is not of a terminated container.
abbrev pub first_not_terminated : List (Option Terminated) → Bool
first_not_terminated (none ∷ containers) = true
first_not_terminated _ = false

-- updateStatus dereferences a nil pointer exactly for a failed pod whose first container has a status
-- that does not say that it terminated.
pub observe-none_iff :
    (now : Reading → ℤ) (pod : PodStatus) (before : PhJobStatus)
    → (observe now pod before ≡ none)
      ↔ ((pod.phase ≡ PodPhase.failed) × (first_not_terminated pod.container_statuses ≡ true))
unfolding observe observe_phase failed_status unknown_status pending_status
observe-none_iff now pod before = ((λ e. (ground arith, ground arith)), λ e. ground arith)
