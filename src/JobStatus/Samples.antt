-- ===== src/JobStatus/Samples.antt =====
-- Pods of a job that is Preparing.
use primehub_controller.Prelude.{refl, none, some, [], ◌∷◌, pos}
use primehub_controller.Kube.{PodPhase, PodStatus}
use primehub_controller.PhJob.{PhJobPhase, PhJobReason, PhJobStatus}
use primehub_controller.JobStatus.{observe}
use primehub_controller.JobStatus.Mapping.{Follows, observe-Follows}

abbrev preparing_status : PhJobStatus
preparing_status = record {
  phase = PhJobPhase.preparing;
  reason = PhJobReason.over_quota;
  message = "";
  pod_name = "job-1";
  start_time = none;
  finish_time = none;
  requeued = some (pos 0);
}

abbrev pod_seen : PodPhase → PodStatus
pod_seen phase = record {
  phase = phase;
  reason = "";
  message = "";
  start_time = none;
  conditions = [];
  container_statuses = none ∷ [];
}

abbrev running_status : PhJobStatus
running_status = record preparing_status {
  phase = PhJobPhase.running;
  start_time = some (pos 7);
  reason = PhJobReason.pod_running;
  message = "Job is currently running";
}

observe-Follows_example : Follows PodPhase.running preparing_status running_status
unfolding observe
observe-Follows_example =
    observe-Follows (λ reading. pos 7) (pod_seen PodPhase.running) preparing_status running_status
      refl
