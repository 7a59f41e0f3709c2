-- ===== src/Schedule/Entries.antt =====
-- The entries of the crons: at most one for each schedule, the current one once it is active, and none
-- once it is not.
use primehub_controller.Prelude.{
  not_found, lookup-put_same, err, if◌then◌else◌, false, true, All-keep, Error, Bool, ◌++◌, str_eq,
  refl, ap, Bool-cases, inr, ◌∙◌, ◌∷◌, inl, All-lookup, All-put, sym, ok, ◌⊎◌, none, Result-cases,
  subst, Option-cases, some, [], Option, All, ◌≡◌, List, String, lookup,
}
use primehub_controller.Schedule.{
  forgotten, custom_found, no_schedule, get_defined_recurrence, ScheduleRun, reconcile_schedule,
  reconcile_found, activate, time_spec, drop_key, add_entry, PhSchedule, cleared_map,
  ScheduleAnswers, publish, filled, cleared, Crons, PhScheduleCron, CronLib,
}
use primehub_controller.JobStatus.{is_not_found}
use text.Mathlib.TextEquality.{eq_iff}

lookup-drop_key :
    {V : Type 0} (name : String) (entries : List (String × V))
    → lookup name (drop_key name entries) ≡ none
unfolding lookup
lookup-drop_key name [] = refl
lookup-drop_key name (entry ∷ entries) = elim (Bool-cases (str_eq entry.0 name)) [
  | inl same ↦ rw same (lookup-drop_key name entries)
  | inr other ↦ rw other (rw other (lookup-drop_key name entries))
]

module _ (lib : CronLib) where
  open lib use {Cron, EntryId}

  -- The cron has no entry, or the one that its record names.
  abbrev pub IsSingle : PhScheduleCron lib → Type 0
  IsSingle cron =
      (lib.entries cron.c ≡ [])
      ⊎ ((spec : String) × (schedule : PhSchedule) × (lib.entries cron.c
            ≡ (cron.entry_id, spec, schedule) ∷ []))

  abbrev pub AreSingle : Crons lib → Type 0
  AreSingle crons = All (λ entry. IsSingle entry.1) crons

  cleared-empty :
      (found : Option (PhScheduleCron lib))
      → ((cron : PhScheduleCron lib) → found ≡ some cron → IsSingle cron)
      → lib.entries (cleared lib found).c ≡ []
  unfolding cleared
  cleared-empty none h = lib.entries-new_cron
  cleared-empty (some cron) h = elim (h cron refl) [
    | inl empty ↦ lib.entries-remove_none cron.entry_id _ (lib.entries-stop cron.c ∙ empty)
    | inr (spec, schedule, only) ↦
        lib.entries-remove_only cron.entry_id spec schedule _ (lib.entries-stop cron.c ∙ only)
  ]

  filled-entries :
      (cron : Cron) (spec : String) (schedule : PhSchedule) (recurrence : String)
      (added : EntryId × Cron)
      → lib.entries cron ≡ []
      → lib.add_func spec schedule cron ≡ ok added
      → lib.entries (filled lib schedule recurrence added.0 added.1).c
        ≡ (added.0, spec, schedule) ∷ []
  unfolding filled
  filled-entries cron spec schedule recurrence added empty e =
      lib.entries-start added.1
      ∙ lib.entries-add_func spec schedule cron added.1 added.0 e
      ∙ ap (λ entries. entries ++ (added.0, spec, schedule) ∷ []) empty

  publish-crons :
      (answers : ScheduleAnswers lib) (crons : Crons lib) (schedule : PhSchedule)
      → (publish lib answers crons schedule).crons ≡ crons
  unfolding publish
  publish-crons answers crons schedule = elim (Option-cases answers.update_error) [
    | inl fine ↦ rw (fine, publish) refl
    | inr (e, refused) ↦ rw (refused, publish) refl
  ]

  publish-AreSingle :
      (answers : ScheduleAnswers lib) (crons : Crons lib) (schedule : PhSchedule)
      → AreSingle crons
      → AreSingle (publish lib answers crons schedule).crons
  publish-AreSingle answers crons schedule h =
      subst AreSingle (sym (publish-crons answers crons schedule)) h

  cleared_map-AreSingle :
      (name : String) (found : Option (PhScheduleCron lib)) (crons : Crons lib)
      → AreSingle crons
      → lib.entries (cleared lib found).c ≡ []
      → AreSingle (cleared_map lib name found crons)
  unfolding cleared_map
  cleared_map-AreSingle name none crons h empty = h
  cleared_map-AreSingle name (some cron) crons h empty =
      All-put (λ entry. IsSingle entry.1) name _ crons (inl empty) h

  lookup-IsSingle :
      (name : String) (crons : Crons lib)
      → AreSingle crons
      → (cron : PhScheduleCron lib) → lookup name crons ≡ some cron
      → IsSingle cron
  lookup-IsSingle name crons h cron e = All-lookup (λ entry. IsSingle entry.1) name cron crons h e

  module _ (answers : ScheduleAnswers lib) (crons : Crons lib) (h : AreSingle crons) where
    add_entry-AreSingle :
        (schedule : PhSchedule) (location recurrence : String)
        → AreSingle
            (add_entry lib answers crons schedule location recurrence
              (lookup schedule.key.name crons)).crons
    unfolding add_entry filled
    add_entry-AreSingle schedule location recurrence =
        let name = schedule.key.name in
        let found = lookup name crons in
        let empty = cleared-empty found (lookup-IsSingle name crons h) in
        elim (Result-cases
          (lib.add_func (time_spec lib location recurrence) schedule (cleared lib found).c)) [
            | inl (e, refused) ↦
                rw (refused, add_entry)
                  (publish-AreSingle answers _ _ (cleared_map-AreSingle name found crons h empty))
            | inr (added, e) ↦
                let only =
                  filled-entries (cleared lib found).c (time_spec lib location recurrence) schedule
                    recurrence added empty e in
                rw (e, add_entry)
                  (publish-AreSingle answers _ _ (
                    All-put (λ entry. IsSingle entry.1) name
                      (filled lib schedule recurrence added.0 added.1) crons
                      (inr (_, schedule, only)) h))
          ]

    activate-AreSingle :
        (schedule : PhSchedule) (recurrence : String)
        → AreSingle (activate lib answers crons schedule recurrence).crons
    unfolding activate
    activate-AreSingle schedule recurrence = elim (Result-cases answers.time_zone) [
      | inl (e, unknown) ↦ rw (unknown, activate) h
      | inr (location, zone) ↦ elim (Option-cases answers.build_error) [
        | inr (e, unbuilt) ↦ rw (zone, unbuilt, activate) (publish-AreSingle answers crons _ h)
        | inl built ↦ rw (zone, built, activate) (add_entry-AreSingle schedule location recurrence)
      ]
    ]

    if-AreSingle :
        (b : Bool) (s t : ScheduleRun lib)
        → AreSingle s.crons
        → AreSingle t.crons
        → AreSingle (if b then s else t).crons
    if-AreSingle true s t k l = k
    if-AreSingle false s t k l = l

    custom-AreSingle :
        (schedule : PhSchedule) (parsed : Option Error)
        → AreSingle (custom_found lib answers crons schedule parsed).crons
    unfolding custom_found
    custom-AreSingle schedule none = activate-AreSingle schedule schedule.recurrence_cron
    custom-AreSingle schedule (some e) = publish-AreSingle answers crons _ h

    found-AreSingle :
        (schedule : PhSchedule) → AreSingle (reconcile_found lib answers crons schedule).crons
    unfolding reconcile_found
    found-AreSingle schedule =
        if-AreSingle (str_eq schedule.recurrence_type "custom") _ _
          (custom-AreSingle schedule (answers.parse_error schedule.recurrence_cron))
          (if-AreSingle (str_eq schedule.recurrence_type "inactive") _ _
            (publish-AreSingle answers _ _ (All-keep (λ entry. IsSingle entry.1) _ crons h))
            (activate-AreSingle schedule (get_defined_recurrence schedule.recurrence_type)))

    -- If each cron of the map has no entry or the one that the map names, Reconcile leaves such a map.
    pub reconcile_schedule-AreSingle :
        (name : String) → AreSingle (reconcile_schedule lib answers crons name).crons
    unfolding reconcile_schedule
    reconcile_schedule-AreSingle name = elim (Result-cases answers.get_schedule) [
      | inr (schedule, read) ↦ rw (read, reconcile_schedule) (found-AreSingle schedule)
      | inl (e, unread) ↦
          rw (unread, reconcile_schedule)
            (if-AreSingle (is_not_found e) (forgotten lib name crons)
              (reconcile_found lib answers crons no_schedule)
              (All-keep (λ entry. IsSingle entry.1) _ crons h) (found-AreSingle no_schedule))
    ]

  -- After Reconcile of a schedule that is gone, or that is inactive, the map has no cron for it.
  pub reconcile_schedule-stops :
      (answers : ScheduleAnswers lib) (crons : Crons lib) (name : String)
      → (answers.get_schedule ≡ err not_found)
        ⊎ ((schedule : PhSchedule) × (answers.get_schedule ≡ ok schedule)
            × (schedule.key.name ≡ name)
            × (schedule.recurrence_type ≡ "inactive"))
      → lookup name (reconcile_schedule lib answers crons name).crons ≡ none
  unfolding reconcile_schedule reconcile_found
  reconcile_schedule-stops answers crons name (inl gone) =
      rw (gone, reconcile_schedule) (lookup-drop_key name crons)
  reconcile_schedule-stops answers crons name (inr (schedule, read, named, inactive)) =
      let dropped : lookup name (drop_key schedule.key.name crons) ≡ none =
        subst (λ n. lookup name (drop_key n crons) ≡ none) (sym named)
          (lookup-drop_key name crons) in
      let is_inactive = (eq_iff schedule.recurrence_type "inactive").1 inactive in
      let not_custom : str_eq schedule.recurrence_type "custom" ≡ false =
        subst (λ kind. str_eq kind "custom" ≡ false) (sym inactive) refl in
      rw (read, reconcile_schedule)
        (rw (not_custom, is_inactive)
          (subst (λ map. lookup name map ≡ none) (sym (publish-crons answers _ _)) dropped))

  -- Where each cron of the map has no entry or the one that the map names, the time zone is known, the
  -- job builds and the cron accepts the entry, a schedule that is activated ends up with a running cron
  -- whose one entry is the schedule as it was read, at the recurrence in that zone.
  pub activate-Runs :
      (answers : ScheduleAnswers lib) (crons : Crons lib) (schedule : PhSchedule)
      (location recurrence : String) (added : EntryId × Cron)
      → AreSingle crons
      → answers.time_zone ≡ ok location
      → answers.build_error ≡ none
      → lib.add_func
          (time_spec lib location recurrence)
          schedule
          (cleared lib (lookup schedule.key.name crons)).c
        ≡ ok added
      → (cron : PhScheduleCron lib) × (lookup schedule.key.name
            (activate lib answers crons schedule recurrence).crons
          ≡ some cron)
        × (lib.entries cron.c ≡ (cron.entry_id, time_spec lib location recurrence, schedule) ∷ [])
        × (lib.is_running cron.c ≡ true)
  unfolding activate add_entry filled
  activate-Runs answers crons schedule location recurrence added h zone built e =
      let name = schedule.key.name in
      let cron = filled lib schedule recurrence added.0 added.1 in
      let empty = cleared-empty (lookup name crons) (lookup-IsSingle name crons h) in
      let there : lookup name (activate lib answers crons schedule recurrence).crons ≡ some cron =
        rw (zone, built, activate)
          (rw (e, add_entry)
            (subst (λ map. lookup name map ≡ some cron) (sym (publish-crons answers _ _))
              (lookup-put_same name cron crons))) in
      (
        cron,
        there,
        filled-entries (cleared lib (lookup name crons)).c (time_spec lib location recurrence)
            schedule recurrence added empty e,
        lib.is_running-start added.1,
      )
