-- ===== src/Schedule/Tick.antt =====
-- ee/controllers/phschedule_controller.go: buildPhJob, and the function that a cron runs at its times.
use Prim.Native.String.{◌++◌ as ◌+++◌}
use primehub_controller.Prelude.{
  if◌then◌else◌, [], ◌||◌, ◌∷◌, pos, ◌++◌, ℤ, Error, String, Option, Result, List, Bool, ◌>>=◌,
  none, some, ok, err, true, false, str_eq, lookup,
}
use primehub_controller.PhJob.{PhJob, PhJobPhase, PhJobSpec}
use primehub_controller.Kube.{ObjectKey}
use primehub_controller.Schedule.{with_status, PhSchedule}
use primehub_controller.Spawn.{SpawnerOptions}
use primehub_controller.Numeric.{Numeric}
use primehub_controller.GoText.{Casing}
use primehub_controller.Graphql.{DtoUser, DtoDataset}
use primehub_controller.Spawn.Constructors.{new_spawner_for_job}

-- A job as buildPhJob makes it.
pub record ScheduledJob : Type 0 where
  pub key : ObjectKey
  pub annotations : List (String × String)
  pub labels : List (String × String)
  pub spec : PhJobSpec

-- The job phases that hold back the next job.
abbrev pub is_unfinished : PhJobPhase → Bool
is_unfinished PhJobPhase.pending = true
is_unfinished PhJobPhase.preparing = true
is_unfinished PhJobPhase.running = true
is_unfinished _ = false

unfoldable pub any_unfinished : List PhJob → Bool
any_unfinished [] = false
any_unfinished (job ∷ jobs) = is_unfinished job.status.phase || any_unfinished jobs

-- What a trigger writes.
pub data TriggerWrite : Type 0 where
  create_ph_job : ScheduledJob → TriggerWrite
  update_schedule : PhSchedule → TriggerWrite

-- A job with the labels of its object.
pub record LabelledJob : Type 0 where
  pub labels : List (String × String)
  pub job : PhJob

-- The answers to the calls of one trigger: the jobs in the cluster, or the error of the List; what
-- buildPhJob returns; and the errors of the writes.
pub record TriggerAnswers : Type 0 where
  pub list_jobs : Result (List LabelledJob)
  pub build : Result ScheduledJob
  pub create_error : Option Error
  pub update_error : Option Error
  pub error_text : Error → String

abbrev pub scheduled_by : String
scheduled_by = "phjob.primehub.io/scheduledBy"

abbrev pub has_value : String → Option String → Bool
has_value value none = false
has_value value (some found) = str_eq found value

-- client.MatchingLabels with the label of the schedule, in every namespace.
unfoldable pub matching : String → List LabelledJob → List PhJob
matching name [] = []
matching name (item ∷ items) =
    let rest = matching name items in
    if has_value name (lookup scheduled_by item.labels) then item.job ∷ rest else rest

-- What a tick leaves: the writes that the cluster accepted, and whether it ended in a panic.
pub record TickRun : Type 0 where
  pub writes : List TriggerWrite
  pub panicked : Bool

abbrev pub accepted : Option Error → TriggerWrite → List TriggerWrite
accepted none write = write ∷ []
accepted (some _) write = []

abbrev pub returned : List TriggerWrite → TickRun
returned writes = record { writes = writes; panicked = false }

-- The next run time at the end of the function; a schedule without a cron in the map is a nil
-- dereference.
unfoldable pub set_next : TriggerAnswers → Option ℤ → PhSchedule → TickRun
set_next answers none schedule = record { writes = []; panicked = true }
set_next answers (some next) schedule = returned (
    accepted answers.update_error (update_schedule (record schedule { next_run_time = some next })))

-- The writes that were accepted before a part of the function stay when that part panics.
abbrev pub then_write : List TriggerWrite → TickRun → TickRun
then_write writes rest = record rest { writes = writes ++ rest.writes }

-- createPhJob once nothing holds the next job back.
unfoldable pub trigger_built :
    TriggerAnswers → Option ℤ → PhSchedule → Result ScheduledJob → TickRun
trigger_built answers next schedule (err e) = returned (
    accepted answers.update_error
      (update_schedule (with_status true none (answers.error_text e) schedule)))
trigger_built answers next schedule (ok job) =
    then_write (accepted answers.create_error (create_ph_job job)) (set_next answers next schedule)

-- createPhJob for the answer to the List, which selects the jobs of the schedule by their label.
unfoldable pub trigger_listed :
    TriggerAnswers → Option ℤ → PhSchedule → Result (List LabelledJob) → TickRun
trigger_listed answers next schedule (err _) = returned []
trigger_listed answers next schedule (ok items) =
    if any_unfinished (matching schedule.key.name items)
    then set_next answers next schedule
    else trigger_built answers next schedule answers.build

-- The function createPhJob of a schedule, where `next` is the next time of its entry in the map.
unfoldable pub trigger : TriggerAnswers → Option ℤ → PhSchedule → TickRun
trigger answers next schedule = trigger_listed answers next schedule answers.list_jobs

-- No artifacts, no PHFS: the spawner is only asked whether it can be made.
abbrev pub check_options : {Q : Type 0} → Q → SpawnerOptions Q
check_options size = record {
  working_dir = "";
  working_dir_size = size;
  phfs_enabled = false;
  phfs_pvc = "";
  artifact_enabled = false;
  artifact_limit_size_mb = pos 0;
  artifact_limit_files = pos 0;
  artifact_retention_seconds = pos 0;
  grant_sudo = false;
}

-- A failed random text is empty, as its error is overwritten.
abbrev or_empty : Result String → String
or_empty (ok text) = text
or_empty (err _) = ""

module _ ⦃api : Numeric⦄ (casing : Casing)
    (range : List (String × DtoDataset) → List (String × DtoDataset)) (megabyte : api.Quantity)
    (show : ℤ → String) (escape : String → String) where
  open api use {Quantity, Float}

  -- The job of buildPhJob, where `stamp` is the time and `hash` the random text of its name.
  unfoldable pub scheduled_job : String → String → PhSchedule → ScheduledJob
  scheduled_job stamp hash schedule = record {
    key = record { namespace = schedule.key.namespace; name = "job-" +++ stamp +++ "-" +++ hash };
    annotations = schedule.annotations;
    labels =
        (scheduled_by, schedule.key.name)
        ∷ ("primehub.io/group", escape schedule.template.group_name)
        ∷ ("primehub.io/user", escape schedule.template.user_name)
        ∷ [];
    spec = schedule.template;
  }

  -- func buildPhJob, where `fetch` is FetchByUserId.
  unfoldable pub build_ph_job :
      String → Result String → (String → Result (DtoUser Float)) → PhSchedule → Result ScheduledJob
  build_ph_job stamp random fetch schedule = do
    user ← fetch schedule.template.user_id
    spawner ←
        new_spawner_for_job casing range megabyte show user schedule.template.group_name
          schedule.template.instance_type schedule.template.image (check_options api.zero_quantity)
    ok (scheduled_job stamp (or_empty random) schedule)
