-- ===== src/Schedule/Samples.antt =====
-- A daily schedule of ada, and crons that are lists of entries.
use primehub_controller.Numeric.Exact.{exact}
use primehub_controller.Prelude.{
  subst, ok_injective, ◌∙◌, ap, refl, ◌+◌, arith, pos, inr, ◌++◌, ◌==◌, ℤ, some, true, none, false,
  keep, not, ok, ◌∷◌, [], ◌≡◌, Bool, Result, String, lookup, ℕ, List,
}
use primehub_controller.Schedule.{
  activate, reconcile_schedule, ScheduleAnswers, no_schedule, cleared, Crons, PhScheduleCron,
  PhSchedule, CronLib,
}
use primehub_controller.Schedule.Tick.{
  scheduled_by, trigger, build_ph_job, ScheduledJob, TriggerAnswers,
}
use primehub_controller.Schedule.Entries.{activate-Runs, reconcile_schedule-AreSingle, AreSingle}
use primehub_controller.Schedule.Triggers.{trigger-AreSoundWrites, AreSoundWrites}
use primehub_controller.Graphql.{DtoUser}
use primehub_controller.StrictOrder.Samples.{alice}
use primehub_controller.Spawn.Samples.{show, ada, in_order, plain}

-- A cron with the number of its next entry.
record ListCron : Type 0 where
  jobs : List (ℕ × String × PhSchedule)
  running : Bool
  next_id : ℕ

abbrev other_than : ℕ → ℕ × String × PhSchedule → Bool
other_than id entry = not (entry.0 == id)

remove_only :
    (id : ℕ) (spec : String) (schedule : PhSchedule) (c : ListCron)
    → c.jobs ≡ (id, spec, schedule) ∷ []
    → keep (other_than id) c.jobs ≡ []
remove_only id spec schedule c e =
    let same : (id == id) ≡ true = ground arith in ap (keep (other_than id)) e ∙ rw same refl

abbrev list_crons : CronLib
list_crons = record {
  Cron = ListCron;
  EntryId = ℕ;
  zero_id = 0;
  new_cron = record { jobs = []; running = false; next_id = 1 };
  stop = λ c. record c { running = false };
  start = λ c. record c { running = true };
  remove = λ id c. record c { jobs = keep (other_than id) c.jobs };
  add_func = λ spec schedule c. ok (
    c.next_id,
    record c { jobs = c.jobs ++ (c.next_id, spec, schedule) ∷ []; next_id = c.next_id + 1 },
  );
  next = λ id c. pos 14400;
  entries = λ c. c.jobs;
  is_running = λ c. c.running;
  entries-new_cron = refl;
  entries-stop = λ c. refl;
  entries-start = λ c. refl;
  entries-remove_only = remove_only;
  entries-remove_none = λ id c e. ap (keep (other_than id)) e;
  entries-add_func = λ spec schedule c after id e.
      let same = ok_injective e in
      subst (λ added. added.1.jobs ≡ c.jobs ++ (added.0, spec, schedule) ∷ []) same refl;
  is_running-start = λ c. refl;
}

abbrev nightly : PhSchedule
nightly = record no_schedule {
  key = record { namespace = "hub"; name = "nightly" };
  recurrence_type = "daily";
  template = record no_schedule.template {
    user_id = "1";
    user_name = "ada";
    group_name = "research_a";
    instance_type = "small";
    image = "base";
  };
}

abbrev answers : PhSchedule → ScheduleAnswers list_crons
answers schedule = record {
  get_schedule = ok schedule;
  parse_error = λ text. none;
  time_zone = ok "Asia/Taipei";
  build_error = none;
  update_error = none;
  error_text = λ e. "error";
}

abbrev old_cron : PhScheduleCron list_crons
old_cron = record {
  c = record { jobs = (7, "CRON_TZ=UTC 0 4 * * 0", nightly) ∷ []; running = true; next_id = 8 };
  entry_id = 7;
  recur_type = "weekly";
  recurrence = "0 4 * * 0";
}

abbrev old_crons : Crons list_crons
old_crons = ("nightly", old_cron) ∷ []

reconcile_schedule-AreSingle_example :
    AreSingle list_crons (reconcile_schedule list_crons (answers nightly) old_crons "nightly").crons
reconcile_schedule-AreSingle_example =
    reconcile_schedule-AreSingle list_crons (answers nightly) old_crons
      (inr ("CRON_TZ=UTC 0 4 * * 0", nightly, refl), tt) "nightly"

abbrev inactive : PhSchedule
inactive = record nightly { recurrence_type = "inactive" }

abbrev added : ℕ × ListCron
added = (
  8,
  record {
    jobs = (8, "CRON_TZ=Asia/Taipei 0 4 * * *", nightly) ∷ [];
    running = false;
    next_id = 9;
  },
)

activate-Runs_example :
    (cron : PhScheduleCron list_crons) × (lookup "nightly"
        (activate list_crons (answers nightly) old_crons nightly "0 4 * * *").crons
      ≡ some cron)
    × (cron.c.jobs ≡ (cron.entry_id, "CRON_TZ=Asia/Taipei 0 4 * * *", nightly) ∷ [])
    × (cron.c.running ≡ true)
unfolding cleared lookup
activate-Runs_example =
    activate-Runs list_crons (answers nightly) old_crons nightly "Asia/Taipei" "0 4 * * *" added
      (inr ("CRON_TZ=UTC 0 4 * * 0", nightly, refl), tt) refl refl refl

abbrev fetch : String → Result (DtoUser ℤ)
fetch id = ok ada

abbrev same_label : String → String
same_label s = s

abbrev build_result : Result ScheduledJob
build_result =
    build_ph_job plain in_order (pos 1) show same_label "202601010400" (ok "abcdef") fetch nightly

abbrev tick : TriggerAnswers
tick = record {
  list_jobs = ok (record { labels = (scheduled_by, "weekly") ∷ []; job = alice } ∷ []);
  build = build_result;
  create_error = none;
  update_error = none;
  error_text = λ e. "error";
}

trigger-AreSoundWrites_example :
    AreSoundWrites plain in_order
      (pos 1)
      show
      same_label
      tick
      fetch
      nightly
      (trigger tick (some (pos 14400)) nightly)
trigger-AreSoundWrites_example =
    trigger-AreSoundWrites plain in_order (pos 1) show same_label tick fetch nightly "202601010400"
      (ok "abcdef") (some (pos 14400)) refl
