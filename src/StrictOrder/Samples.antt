-- ===== src/StrictOrder/Samples.antt =====
-- A queue of two jobs in a group that has room for one.
use primehub_controller.Prelude.{
  lookup, insert, ◌≡◌, ◌⊎◌, ◌≤ℤ◌, ◌+ℤ◌, ◌-ℤ◌, ◌*ℤ◌, refl, false, String, none, some, List, [], ◌∷◌,
  ℤ, pos, ok,
}
use primehub_controller.Numeric.Exact.{exact, gibibytes}
use primehub_controller.Escapism.{escape_to_primehub_label, escape_to_dns_label, utf8}
use primehub_controller.Escapism.Samples.{latin}
use primehub_controller.Quota.{
  DtoInstanceType, convert_to_resource_quota, group_resource_quota, instance_type_requested_quota,
  validate_resource, lacks,
}
use primehub_controller.Quota.Usage.{
  calculate_user_remaining_resource_quota, current_user_resource_usage, current_resource_usage,
  add_pods, remaining, user_label,
}
use primehub_controller.Quota.Samples.{research, small_type, open_type, research_quota}
use primehub_controller.PhJob.{PhJobPhase, PhJobReason, PhJob}
use primehub_controller.StrictOrder.{
  Answers, panicked, spend_amount, spend_memory, spend, grant_to, decide, requested_quota,
  get_user_remaining_quota_in_group, visit_user, visit, schedule_by_strict_order, behind,
}
use primehub_controller.StrictOrder.Grants.{gpu, memory, granted, sum_requested}
use primehub_controller.StrictOrder.Budget.{sum_granted-le_limit}
use primehub_controller.StrictOrder.Panics.{schedule_by_strict_order-panics}

abbrev pub job_named : String → String → PhJob
job_named name user = record {
  key = record { namespace = "hub"; name = name };
  creation_timestamp = pos 0;
  spec = record {
    display_name = name;
    user_id = user;
    user_name = user;
    group_id = "g1";
    group_name = "research";
    instance_type = "small";
    image = "base";
    command = "true";
    cancel = false;
    requeue_limit = some (pos 3);
    active_deadline_seconds = some (pos 3600);
    ttl_seconds_after_finished = some (pos 600);
  };
  status = record {
    phase = PhJobPhase.pending;
    reason = PhJobReason.over_quota;
    message = "";
    pod_name = "";
    start_time = none;
    finish_time = none;
    requeued = some (pos 0);
  };
}

abbrev pub alice : PhJob
alice = job_named "job-1" "alice"

abbrev pub bob : PhJob
bob = job_named "job-2" "bob"

abbrev pub answers_for : DtoInstanceType ℤ → Answers
answers_for instance_type = record {
  fetch_group = λ site key id. ok research;
  fetch_instance_type = λ site key name. ok instance_type;
  list_pods = λ site key namespace labels. ok [];
  now = λ key. pos 0;
  sort = λ jobs. jobs;
  range = λ groups. groups;
}

abbrev pub two_jobs : List PhJob
two_jobs = alice ∷ bob ∷ []

-- The first job takes the GPU of the group.
two_jobs-granted :
    granted latin
      (answers_for small_type)
      (schedule_by_strict_order latin (answers_for small_type) two_jobs [] research_quota).jobs
    ≡ record alice { status = record alice.status { phase = PhJobPhase.preparing } } ∷ []
unfolding schedule_by_strict_order behind visit visit_user decide grant_to spend spend_amount
    spend_memory requested_quota get_user_remaining_quota_in_group
    calculate_user_remaining_resource_quota current_user_resource_usage current_resource_usage
    add_pods remaining group_resource_quota instance_type_requested_quota convert_to_resource_quota
    validate_resource lacks user_label escape_to_primehub_label escape_to_dns_label utf8 ◌*ℤ◌ ◌+ℤ◌
    ◌-ℤ◌ lookup insert
two_jobs-granted = refl

sum_granted-le_limit_example :
    let pass = schedule_by_strict_order latin (answers_for small_type) two_jobs [] research_quota in
    (granted latin (answers_for small_type) pass.jobs ≡ [])
    ⊎ (sum_requested latin
          (answers_for small_type)
          gpu
          (granted latin (answers_for small_type) pass.jobs)
        ≤ℤ pos 1000000000)
unfolding schedule_by_strict_order behind visit visit_user decide grant_to spend spend_amount
    spend_memory requested_quota get_user_remaining_quota_in_group
    calculate_user_remaining_resource_quota current_user_resource_usage current_resource_usage
    add_pods remaining group_resource_quota instance_type_requested_quota convert_to_resource_quota
    validate_resource lacks user_label escape_to_primehub_label escape_to_dns_label utf8 ◌*ℤ◌ ◌+ℤ◌
    ◌-ℤ◌ lookup insert
sum_granted-le_limit_example =
    sum_granted-le_limit latin (answers_for small_type) gpu two_jobs [] research_quota
      (pos 1000000000) (refl, (refl, tt)) refl refl

schedule_by_strict_order-panics_example :
    (schedule_by_strict_order latin (answers_for open_type) (alice ∷ []) [] research_quota).ending
    ≡ panicked
unfolding schedule_by_strict_order behind visit visit_user decide grant_to spend spend_amount
    spend_memory requested_quota get_user_remaining_quota_in_group
    calculate_user_remaining_resource_quota current_user_resource_usage current_resource_usage
    add_pods remaining group_resource_quota instance_type_requested_quota convert_to_resource_quota
    validate_resource lacks user_label escape_to_primehub_label escape_to_dns_label utf8 ◌*ℤ◌ ◌+ℤ◌
    ◌-ℤ◌ lookup insert
schedule_by_strict_order-panics_example =
    schedule_by_strict_order-panics latin (answers_for open_type) memory alice [] research_quota
      (record { cpu = some (pos 2000000000); gpu = some (pos 1000000000); memory = none })
      (record {
        cpu = some (pos 2000000000);
        gpu = some (pos 1000000000);
        memory = some (gibibytes 4);
      })
      refl refl refl refl refl refl
