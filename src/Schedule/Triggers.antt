-- ===== src/Schedule/Triggers.antt =====
-- What a tick of a schedule creates.
use mathlib.Core.Bool.{false≢true}
use primehub_controller.Numeric.{Numeric}
use primehub_controller.GoText.{Casing}
use primehub_controller.Prelude.{
  str_eq_refl, ◌⊎◌, inl, inr, [], ◌∷◌, lookup, Bool-cases, arith, ok_injective, ◌∙◌, ap,
  if◌then◌else◌, sym, bind-ok, refl, Bool, All-append, none, some, true, false, err, ok, All, Error,
  ◌≡◌, Option, Result, ℤ, String, List,
}
use primehub_controller.Graphql.{DtoUser, DtoDataset}
use primehub_controller.Schedule.{PhSchedule}
use primehub_controller.Schedule.Tick.{
  check_options, trigger_listed, trigger_built, any_unfinished, update_schedule, create_ph_job,
  accepted, then_write, TickRun, LabelledJob, matching, scheduled_by, is_unfinished, has_value,
  set_next, scheduled_job, build_ph_job, TriggerWrite, ScheduledJob, trigger, TriggerAnswers,
}
use primehub_controller.PhJob.{PhJob, PhJobPhase}
use primehub_controller.Spawn.{Spawner}
use primehub_controller.Spawn.Constructors.{new_spawner_for_job}

-- The job keeps the next one of its schedule back.
abbrev pub HoldsBack : PhJob → Type 0
HoldsBack job =
    (job.status.phase ≡ PhJobPhase.pending)
    ⊎ ((job.status.phase ≡ PhJobPhase.preparing) ⊎ (job.status.phase ≡ PhJobPhase.running))

finished-not_HoldsBack : (job : PhJob) → is_unfinished job.status.phase ≡ false → ¬ HoldsBack job
finished-not_HoldsBack job e (inl is) = false≢true (sym e ∙ ap is_unfinished is)
finished-not_HoldsBack job e (inr (inl is)) = false≢true (sym e ∙ ap is_unfinished is)
finished-not_HoldsBack job e (inr (inr is)) = false≢true (sym e ∙ ap is_unfinished is)

-- No job with the label of the schedule keeps the next one back.
abbrev pub AreFinished : String → List LabelledJob → Type 0
AreFinished name =
    All (λ (item : LabelledJob). lookup scheduled_by item.labels ≡ some name → ¬ HoldsBack item.job)

any_unfinished-AreFinished :
    (name : String) (items : List LabelledJob)
    → any_unfinished (matching name items) ≡ false
    → AreFinished name items
unfolding any_unfinished matching
any_unfinished-AreFinished name [] e = tt
any_unfinished-AreFinished name (item ∷ items) e =
    elim (Bool-cases (has_value name (lookup scheduled_by item.labels))) [
      | inl selected ↦
          let free = rw selected at e in
          (
            (λ _. finished-not_HoldsBack item.job (ground (arith, free))),
            any_unfinished-AreFinished name items (ground (arith, free)),
          )
      | inr other ↦ (
        (λ is. absurd (false≢true (sym other ∙ (ap (has_value name) is ∙ str_eq_refl name)))),
        any_unfinished-AreFinished name items (rw other at e),
      )
    ]

module _ ⦃api : Numeric⦄ (casing : Casing)
    (range : List (String × DtoDataset) → List (String × DtoDataset)) (megabyte : api.Quantity)
    (show : ℤ → String) (escape : String → String) where
  open api use {Quantity, Float}

  -- A job that a tick may create: that of the schedule, while its jobs in the cluster are finished, and
  -- with a spawner that can be made for its user.
  abbrev pub MayCreate :
      Result (List LabelledJob)
      → (String → Result (DtoUser Float))
      → PhSchedule
      → ScheduledJob
      → Type 0
  MayCreate listed fetch schedule job =
      ((items : List LabelledJob) × (listed ≡ ok items) × AreFinished schedule.key.name items)
      × (job.spec ≡ schedule.template)
      × ((user : DtoUser Float) × (spawner : Spawner Quantity) × (fetch schedule.template.user_id
            ≡ ok user)
          × (new_spawner_for_job casing range megabyte show user schedule.template.group_name
                schedule.template.instance_type schedule.template.image
                (check_options api.zero_quantity)
              ≡ ok spawner))

  abbrev pub IsSoundWrite :
      Result (List LabelledJob)
      → (String → Result (DtoUser Float))
      → PhSchedule
      → TriggerWrite
      → Type 0
  IsSoundWrite listed fetch schedule (create_ph_job job) = MayCreate listed fetch schedule job
  IsSoundWrite listed fetch schedule (update_schedule written) =
      written.template ≡ schedule.template

  module _ (answers : TriggerAnswers) (fetch : String → Result (DtoUser Float))
      (schedule : PhSchedule) where
    abbrev Sound : TriggerWrite → Type 0
    Sound = IsSoundWrite answers.list_jobs fetch schedule

    -- What the cluster accepted, also before a panic.
    abbrev pub AreSoundWrites : TickRun → Type 0
    AreSoundWrites run = All Sound run.writes

    accepted-All :
        (e : Option Error) (write : TriggerWrite) → Sound write → All Sound (accepted e write)
    accepted-All none write h = (h, tt)
    accepted-All (some e) write h = tt

    set_next-AreSoundWrites : (next : Option ℤ) → AreSoundWrites (set_next answers next schedule)
    unfolding set_next
    set_next-AreSoundWrites none = tt
    set_next-AreSoundWrites (some next) = accepted-All answers.update_error _ refl

    then_write-AreSoundWrites :
        (writes : List TriggerWrite) (rest : TickRun)
        → All Sound writes
        → AreSoundWrites rest
        → AreSoundWrites (then_write writes rest)
    then_write-AreSoundWrites writes rest h k = All-append Sound writes rest.writes h k

    built-MayCreate :
        (stamp : String) (random : Result String) (items : List LabelledJob) (job : ScheduledJob)
        → answers.list_jobs ≡ ok items
        → any_unfinished (matching schedule.key.name items) ≡ false
        → build_ph_job casing range megabyte show escape stamp random fetch schedule ≡ ok job
        → MayCreate answers.list_jobs fetch schedule job
    unfolding build_ph_job scheduled_job
    built-MayCreate stamp random items job listed free e =
        let (user, fetched, after) = bind-ok (fetch schedule.template.user_id) _ job e in
        let (spawner, made, named) = bind-ok _ _ job after in
        (
          (items, listed, any_unfinished-AreFinished schedule.key.name items free),
          ap (λ j. j.spec) (sym (ok_injective named)),
          (user, spawner, fetched, made),
        )

    built-AreSoundWrites :
        (next : Option ℤ) (built : Result ScheduledJob)
        → ((job : ScheduledJob) → built ≡ ok job → MayCreate answers.list_jobs fetch schedule job)
        → AreSoundWrites (trigger_built answers next schedule built)
    unfolding trigger_built
    built-AreSoundWrites next (err e) h = accepted-All answers.update_error _ refl
    built-AreSoundWrites next (ok job) h =
        then_write-AreSoundWrites _ (set_next answers next schedule)
          (accepted-All answers.create_error _ (h job refl)) (set_next-AreSoundWrites next)

    if-AreSoundWrites :
        (b : Bool) (s t : TickRun)
        → AreSoundWrites s
        → (b ≡ false → AreSoundWrites t)
        → AreSoundWrites (if b then s else t)
    if-AreSoundWrites true s t h k = h
    if-AreSoundWrites false s t h k = k refl

    listed-AreSoundWrites :
        (stamp : String) (random : Result String) (next : Option ℤ)
        (listed : Result (List LabelledJob))
        → answers.list_jobs ≡ listed
        → answers.build ≡ build_ph_job casing range megabyte show escape stamp random fetch schedule
        → AreSoundWrites (trigger_listed answers next schedule listed)
    unfolding trigger_listed
    listed-AreSoundWrites stamp random next (err e) is_listed built = tt
    listed-AreSoundWrites stamp random next (ok items) is_listed built =
        if-AreSoundWrites (any_unfinished (matching schedule.key.name items))
          (set_next answers next schedule) (trigger_built answers next schedule answers.build)
          (set_next-AreSoundWrites next)
          (λ free.
            built-AreSoundWrites next answers.build
              (λ job e. built-MayCreate stamp random items job is_listed free (sym built ∙ e)))

  -- A tick, whose job is that of buildPhJob, creates a job only while the cluster has no Pending,
  -- Preparing or Running job with the label of the schedule; the job has the template of the schedule,
  -- and NewSpawnerForJob succeeds for it; and a status update keeps the template. This holds of every
  -- write that the cluster accepts, also where the tick ends in a panic after it.
  pub trigger-AreSoundWrites :
      (answers : TriggerAnswers) (fetch : String → Result (DtoUser Float)) (schedule : PhSchedule)
      (stamp : String) (random : Result String) (next : Option ℤ)
      → answers.build ≡ build_ph_job casing range megabyte show escape stamp random fetch schedule
      → AreSoundWrites answers fetch schedule (trigger answers next schedule)
  unfolding trigger
  trigger-AreSoundWrites answers fetch schedule stamp random next built =
      listed-AreSoundWrites answers fetch schedule stamp random next answers.list_jobs refl built
