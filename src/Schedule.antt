-- ===== src/Schedule.antt =====
-- ee/controllers/phschedule_controller.go: the recurring jobs. The map of crons is the state that the
-- controller keeps; a Reconcile is the new map, the writes that the cluster accepts, and the result.
pub mod Entries
pub mod Tick
pub mod Triggers
mod Samples
use Prim.Native.String.{◌++◌ as ◌+++◌}
use primehub_controller.Kube.{ObjectKey}
use primehub_controller.Prelude.{
  ◌>>=◌, pos, ◌||◌, lookup, ◌++◌, ◌∷◌, put, not, none, ◌≡◌, ok, err, some, true, Error, keep, false,
  str_eq, ℤ, if◌then◌else◌, Option, Result, List, Bool, [], String,
}
use primehub_controller.PhJob.{PhJob, PhJobSpec, PhJobPhase}
use primehub_controller.JobStatus.{is_not_found}
use primehub_controller.Spawn.{SpawnerOptions}
use primehub_controller.Numeric.{Numeric}
use primehub_controller.GoText.{Casing}
use primehub_controller.Graphql.{DtoUser, DtoDataset}
use primehub_controller.Spawn.Constructors.{new_spawner_for_job}

-- type PhSchedule with its specification and status. A nil time is `none`.
pub record PhSchedule : Type 0 where
  pub key : ObjectKey
  pub annotations : List (String × String)
  pub recurrence_type : String
  pub recurrence_cron : String
  pub template : PhJobSpec
  pub invalid : Bool
  pub next_run_time : Option ℤ
  pub message : String

-- What the code uses of github.com/robfig/cron. An entry is its id, its specification and the schedule
-- whose function runs. The laws are those that the documentation gives.
pub record CronLib : Type 1 where
  pub Cron : Type 0
  pub EntryId : Type 0
  pub zero_id : EntryId
  pub new_cron : Cron
  pub stop : Cron → Cron
  pub start : Cron → Cron
  pub remove : EntryId → Cron → Cron
  pub add_func : String → PhSchedule → Cron → Result (EntryId × Cron)
  pub next : EntryId → Cron → ℤ
  pub entries : Cron → List (EntryId × String × PhSchedule)
  pub is_running : Cron → Bool
  pub entries-new_cron : entries new_cron ≡ []
  pub entries-stop : (c : Cron) → entries (stop c) ≡ entries c
  pub entries-start : (c : Cron) → entries (start c) ≡ entries c
  pub entries-remove_only :
      (id : EntryId) (spec : String) (schedule : PhSchedule) (c : Cron)
      → entries c ≡ (id, spec, schedule) ∷ []
      → entries (remove id c) ≡ []
  pub entries-remove_none : (id : EntryId) (c : Cron) → entries c ≡ [] → entries (remove id c) ≡ []
  pub entries-add_func :
      (spec : String) (schedule : PhSchedule) (c after : Cron) (id : EntryId)
      → add_func spec schedule c ≡ ok (id, after)
      → entries after ≡ entries c ++ (id, spec, schedule) ∷ []
  pub is_running-start : (c : Cron) → is_running (start c) ≡ true

-- func getDefinedRecurrence
unfoldable pub get_defined_recurrence : String → String
get_defined_recurrence cron_type =
    if str_eq cron_type "daily"
    then "0 4 * * *"
    else if str_eq cron_type "weekly"
    then "0 4 * * 0"
    else if str_eq cron_type "monthly"
    then "0 4 1 * *"
    else ""

-- The object that a failed Get leaves.
abbrev pub no_schedule : PhSchedule
no_schedule = record {
  key = record { namespace = ""; name = "" };
  annotations = [];
  recurrence_type = "";
  recurrence_cron = "";
  template = record {
    display_name = "";
    user_id = "";
    user_name = "";
    group_id = "";
    group_name = "";
    instance_type = "";
    image = "";
    command = "";
    cancel = false;
    requeue_limit = none;
    active_deadline_seconds = none;
    ttl_seconds_after_finished = none;
  };
  invalid = false;
  next_run_time = none;
  message = "";
}

abbrev pub drop_key : {V : Type 0} → String → List (String × V) → List (String × V)
drop_key name entries = keep (λ entry. not (str_eq entry.0 name)) entries

abbrev pub with_status : Bool → Option ℤ → String → PhSchedule → PhSchedule
with_status invalid next_run_time text schedule = record schedule {
  invalid = invalid;
  next_run_time = next_run_time;
  message = text;
}

module _ (lib : CronLib) where
  open lib use {Cron, EntryId}

  -- type PhScheduleCron
  pub record PhScheduleCron : Type 0 where
    pub c : Cron
    pub entry_id : EntryId
    pub recur_type : String
    pub recurrence : String

  abbrev pub Crons : Type 0
  Crons = List (String × PhScheduleCron)

  -- The new map, the accepted status updates, whether the call comes again in a minute, and the error.
  pub record ScheduleRun : Type 0 where
    pub crons : Crons
    pub updates : List PhSchedule
    pub requeued : Bool
    pub error : Option Error

  -- The answers to the calls of one Reconcile. `parse_error` is that of the parser for a custom
  -- recurrence, `build_error` that of buildPhJob.
  pub record ScheduleAnswers : Type 0 where
    pub get_schedule : Result PhSchedule
    pub parse_error : String → Option Error
    pub time_zone : Result String
    pub build_error : Option Error
    pub update_error : Option Error
    pub error_text : Error → String

  -- The end of a branch: the status update and a result in a minute.
  unfoldable pub publish : ScheduleAnswers → Crons → PhSchedule → ScheduleRun
  publish answers crons schedule = elim answers.update_error [
    | none ↦ record { crons = crons; updates = schedule ∷ []; requeued = true; error = none }
    | some e ↦ record { crons = crons; updates = []; requeued = true; error = some e }
  ]

  -- The cron to fill: a new one, or the old one stopped and without its entry.
  unfoldable pub cleared : Option PhScheduleCron → PhScheduleCron
  cleared none = record {
    c = lib.new_cron;
    entry_id = lib.zero_id;
    recur_type = "";
    recurrence = "";
  }
  cleared (some cron) = record cron { c = lib.remove cron.entry_id (lib.stop cron.c) }

  -- The map after the old cron of a schedule was cleared in place.
  unfoldable pub cleared_map : String → Option PhScheduleCron → Crons → Crons
  cleared_map name none crons = crons
  cleared_map name (some cron) crons = put name (cleared (some cron)) crons

  abbrev pub time_spec : String → String → String
  time_spec location recurrence = "CRON_TZ=" +++ location +++ " " +++ recurrence

  -- The cron with its new entry.
  unfoldable pub filled : PhSchedule → String → EntryId → Cron → PhScheduleCron
  filled schedule recurrence id c = record {
    c = lib.start c;
    entry_id = id;
    recur_type = schedule.recurrence_type;
    recurrence = recurrence;
  }

  -- From AddFunc to the end of Reconcile, where `found` is the cron that the map has for the schedule.
  unfoldable pub add_entry :
      ScheduleAnswers → Crons → PhSchedule → String → String → Option PhScheduleCron → ScheduleRun
  add_entry answers crons schedule location recurrence found =
      elim (lib.add_func (time_spec location recurrence) schedule (cleared found).c) [
        | err e ↦ publish answers (cleared_map schedule.key.name found crons) (
            with_status true none ("controller cannot create cron job. " +++ answers.error_text e)
              schedule)
        | ok added ↦
            publish answers
              (put schedule.key.name (filled schedule recurrence added.0 added.1) crons)
              (with_status false (some (lib.next added.0 (lib.start added.1))) schedule.message
                schedule)
      ]

  -- A schedule that is not inactive, with its recurrence.
  unfoldable pub activate : ScheduleAnswers → Crons → PhSchedule → String → ScheduleRun
  activate answers crons schedule recurrence = elim answers.time_zone [
    | err _ ↦ record { crons = crons; updates = []; requeued = true; error = none }
    | ok location ↦ elim answers.build_error [
      | some e ↦ publish answers crons (with_status true none (answers.error_text e) schedule)
      | none ↦ add_entry answers crons schedule location recurrence (lookup schedule.key.name crons)
    ]
  ]

  -- A schedule with a recurrence of its own, for the answer of the parser.
  unfoldable pub custom_found : ScheduleAnswers → Crons → PhSchedule → Option Error → ScheduleRun
  custom_found answers crons schedule (some _) =
      publish answers crons (with_status true none "phSchedule recurrence format invalid" schedule)
  custom_found answers crons schedule none =
      activate answers crons schedule schedule.recurrence_cron

  -- What Reconcile does with the object that it has.
  unfoldable pub reconcile_found : ScheduleAnswers → Crons → PhSchedule → ScheduleRun
  reconcile_found answers crons schedule =
      if str_eq schedule.recurrence_type "custom"
      then custom_found answers crons schedule (answers.parse_error schedule.recurrence_cron)
      else if str_eq schedule.recurrence_type "inactive"
      then publish answers (drop_key schedule.key.name crons)
          (with_status false none "This phSchedule is inactive" schedule)
      else activate answers crons schedule (get_defined_recurrence schedule.recurrence_type)

  -- A schedule that is gone: its cron is stopped and leaves the map.
  abbrev pub forgotten : String → Crons → ScheduleRun
  forgotten name crons = record {
    crons = drop_key name crons;
    updates = [];
    requeued = false;
    error = none;
  }

  -- func (r *PhScheduleReconciler) Reconcile for a name; an error other than a missing schedule leaves
  -- the empty object, and the call goes on.
  unfoldable pub reconcile_schedule : ScheduleAnswers → Crons → String → ScheduleRun
  reconcile_schedule answers crons name = elim answers.get_schedule [
    | ok schedule ↦ reconcile_found answers crons schedule
    | err e ↦
        if is_not_found e then forgotten name crons else reconcile_found answers crons no_schedule
  ]
