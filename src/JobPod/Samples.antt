-- ===== src/JobPod/Samples.antt =====
-- The pod of a job of ada in a group with a shared volume.
use primehub_controller.Prelude.{
  ◌∷◌, String, List, lookup, Option, ℤ, Result, ok, none, some, [], true, false, pos, ◌≡◌, ◌↔◌,
  refl,
}
use text.Mathlib.Text.{starts_with}
use primehub_controller.Numeric.Exact.{exact, gibibytes}
use primehub_controller.Escapism.{escape_to_primehub_label}
use primehub_controller.Escapism.Samples.{latin}
use primehub_controller.PhJob.{PhJob, PhJobPhase, PhJobReason}
use primehub_controller.Quota.Usage.{group_labels, user_labels, user_label}
use primehub_controller.Spawn.Samples.{plain, in_order, ada, show, research_group, everyone}
use primehub_controller.Quota.Samples.{small_type, small_request, small_type_request}
use primehub_controller.Numeric.{ResourceList}
use primehub_controller.GoText.{last_code}
use primehub_controller.JobPod.Limits.{limits_of}
use primehub_controller.JobPod.Memory.{build_pod-memory}
use primehub_controller.Spawn.Resources.{
  find_group, find_image, find_instance_type, convert_memory_unit,
}
use primehub_controller.Spawn.Constructors.{new_spawner_for_job}
use primehub_controller.JobPod.Additions.{
  mount_in_first, attach_monitoring_agent, with_shared_memory, with_job_env, append_env,
  with_time_zone, PodSettings,
}
use primehub_controller.JobPod.Build.{
  PodAnswers, BuiltPod, build_pod, no_pod_spec, job_spawner, job_pod_spec,
}
use primehub_controller.Spawn.Build.{build_pod_spec}
use primehub_controller.JobPod.Mounts.{AreMounted, build_pod-AreMounted}
use primehub_controller.JobPod.Labels.{Selects, build_pod-Selects}

abbrev settings : PodSettings ℤ
settings = record {
  working_dir_size = gibibytes 5;
  node_selector = [];
  tolerations = [];
  phfs_enabled = true;
  phfs_pvc = "phfs";
  artifact_enabled = true;
  artifact_limit_size_mb = pos 100;
  artifact_limit_files = pos 0;
  grant_sudo = false;
  artifact_retention_seconds = pos 60;
  agent_repository = "";
  agent_tag = "1.0";
}

abbrev answers : PodAnswers ℤ
answers = record {
  fetched = ok (ada, []);
  time_zone = ok "Asia/Taipei";
  annotations = [];
  set_reference_error = none;
}

abbrev job : PhJob
job = record {
  key = record { namespace = "hub"; name = "job-1" };
  creation_timestamp = pos 0;
  spec = record {
    display_name = "train";
    user_id = "1";
    user_name = "ada";
    group_id = "2";
    group_name = "research_a";
    instance_type = "small";
    image = "base";
    command = "python train.py";
    cancel = false;
    requeue_limit = none;
    active_deadline_seconds = none;
    ttl_seconds_after_finished = none;
  };
  status = record {
    phase = PhJobPhase.preparing;
    reason = PhJobReason.no_reason;
    message = "";
    pod_name = "";
    start_time = none;
    finish_time = none;
    requeued = none;
  };
}

abbrev marshal_map : List (String × String) → String
marshal_map entries = "{}"

abbrev result : Option (Result (BuiltPod ℤ))
result = build_pod plain in_order (pos 1) show settings latin marshal_map answers job

abbrev or_empty : Option (Result (BuiltPod ℤ)) → BuiltPod ℤ
or_empty (some (ok pod)) = pod
or_empty other = record { key = job.key; annotations = []; labels = []; spec = no_pod_spec }

abbrev pod : BuiltPod ℤ
pod = or_empty result

built : result ≡ some (ok pod)
unfolding build_pod job_spawner new_spawner_for_job find_group find_image find_instance_type
    job_pod_spec attach_monitoring_agent build_pod_spec mount_in_first with_shared_memory
    with_job_env append_env with_time_zone
built = refl

build_pod-AreMounted_example :
    AreMounted plain in_order (pos 1) show settings latin marshal_map answers job result
build_pod-AreMounted_example =
    build_pod-AreMounted plain in_order (pos 1) show settings latin marshal_map answers job

build_pod-Selects_example :
    Selects (group_labels (escape_to_primehub_label latin "research_a")) pod.labels
    × (Selects
          (user_labels (escape_to_primehub_label latin "research_a") (user_label latin "ada"))
          pod.labels
        ↔ (starts_with "ada" "escaped-" ≡ false))
build_pod-Selects_example =
    build_pod-Selects plain in_order (pos 1) show settings latin marshal_map answers job pod built

build_pod-memory_example :
    (limits : ResourceList ℤ) × (limits_of pod.spec.containers ≡ limits ∷ [])
    × (lookup "memory" limits ≡ some (gibibytes 4))
unfolding find_group find_instance_type convert_memory_unit last_code
build_pod-memory_example =
    build_pod-memory plain in_order (pos 1) show settings latin marshal_map answers job ada [] pod
      (research_group, some everyone) (record { name = "small"; spec = small_type }) small_request
      refl built refl refl small_type_request refl refl
