-- ===== src/JobController/Ends.antt =====
-- How a reconciliation of a job ends, and the phase it leaves behind in the API server.
use primehub_controller.Prelude.{
  ap, Option-cases, String, Bool, true, ◌≡◌, refl, ◌∙◌, ◌⊎◌, inl, inr, none, some, List, [], ◌∷◌,
  ◌++◌, ℤ, pos, ok, not_found, arith,
}
use primehub_controller.PhJob.{PhJobPhase, PhJobReason, PhJobStatus, PhJob}
use primehub_controller.JobAct.{
  Effect, update_job, update_status, delete_pod, create_pod, notify, send_email, Exit, go, done,
  Act, ◌>>=◌,
}
use primehub_controller.JobPod.{
  Script, Settings, delete_found, delete_pod_of_job, update_ph_job_status,
}
use primehub_controller.JobStatus.{Reading, set_status}
use primehub_controller.JobController.Limits.{
  one_minute, prologue, cancelled_status, exceeded_status,
}
use primehub_controller.JobController.{
  deadline_of_group, fetched, stored, default_deadline, default_ttl, check_update, save_and_notify,
  check_delete, cancel_branch, exceeded_branch, dispatch, reconcile,
}

-- The phase in the API server behind some effects.
abbrev pub stored_phase : PhJobPhase → List Effect → PhJobPhase
stored_phase phase [] = phase
stored_phase phase (update_status job ∷ effects) = stored_phase job.status.phase effects
stored_phase phase (_ ∷ effects) = stored_phase phase effects

-- An act that finds the phase `before` in the API server leaves `after` there and ends in `exit`.
abbrev pub Runs : {A : Type 0} → PhJobPhase → Act A → PhJobPhase → Exit A → Type 0
Runs before act after exit = (stored_phase before act.effects ≡ after) × (act.exit ≡ exit)

stored_phase-append :
    (phase : PhJobPhase) (a b : List Effect)
    → stored_phase phase (a ++ b) ≡ stored_phase (stored_phase phase a) b
stored_phase-append phase [] b = refl
stored_phase-append phase (update_status job ∷ a) b = stored_phase-append job.status.phase a b
stored_phase-append phase (update_job job ∷ a) b = stored_phase-append phase a b
stored_phase-append phase (delete_pod ∷ a) b = stored_phase-append phase a b
stored_phase-append phase (create_pod ∷ a) b = stored_phase-append phase a b
stored_phase-append phase (notify p ∷ a) b = stored_phase-append phase a b
stored_phase-append phase (send_email p ∷ a) b = stored_phase-append phase a b

>>=-Runs :
    {A B : Type 0} (before middle last : PhJobPhase) (m : Act A) (f : A → Act B) (a : A)
    (x : Exit B)
    → Runs before m middle (go a)
    → Runs middle (f a) last x
    → Runs before (m >>= f) last x
unfolding ◌>>=◌
>>=-Runs before middle last m f a x (stored_m, exit_m) (stored_f, exit_f) = rw exit_m (
  (stored_phase-append before m.effects (f a).effects
      ∙ ap (λ phase. stored_phase phase (f a).effects) stored_m
      ∙ stored_f),
  exit_f,
)

-- The calls that write and delete succeed, or there is no pod to delete.
abbrev pub Healthy : Script → Type 0
Healthy script =
    (script.update_deadline ≡ none)
    × (script.update_ttl ≡ none)
    × (script.last_status ≡ none)
    × ((script.delete_get ≡ none) × (script.delete_call ≡ none)
        ⊎ (script.delete_get ≡ some not_found))

-- Semantic.DeepEqual holds of two statuses only if their phases are the same.
abbrev pub TellsPhases : (PhJobStatus → PhJobStatus → Bool) → Type 0
TellsPhases equal = (s t : PhJobStatus) → equal s t ≡ true → s.phase ≡ t.phase

-- The defaults change neither the status nor what the user has asked for.
abbrev pub SameRequest : PhJob → PhJob → Type 0
SameRequest next job =
    (next.status ≡ job.status)
    × (next.spec.cancel ≡ job.spec.cancel)
    × (next.spec.requeue_limit ≡ job.spec.requeue_limit)
    × ((n : ℤ)
        → job.spec.active_deadline_seconds ≡ some n
        → next.spec.active_deadline_seconds ≡ some n)

module _ (equal : PhJobStatus → PhJobStatus → Bool) (settings : Settings) (script : Script) where
  pub cancel_branch-stores :
      (old : PhJobStatus) (job : PhJob)
      → TellsPhases equal
      → Healthy script
      → (stored_phase old.phase (cancel_branch equal settings script old job).effects
          ≡ PhJobPhase.cancelled)
        × ((cancel_branch equal settings script old job).exit ≡ done (pos 0) none)
  unfolding cancel_branch cancelled_status check_delete save_and_notify check_update delete_found
      delete_pod_of_job update_ph_job_status ◌>>=◌
  cancel_branch-stores old job tells healthy =
      let same = tells old (cancelled_status (script.now Reading.cancelling) job.status) in
      ground arith

  pub exceeded_branch-stores :
      (old : PhJobStatus) (job : PhJob) (why : PhJobReason) (text : String)
      → TellsPhases equal
      → Healthy script
      → (stored_phase old.phase (exceeded_branch equal settings script old job why text).effects
          ≡ PhJobPhase.failed)
        × ((exceeded_branch equal settings script old job why text).exit ≡ done one_minute none)
  unfolding exceeded_branch exceeded_status check_delete save_and_notify check_update delete_found
      delete_pod_of_job update_ph_job_status ◌>>=◌
  exceeded_branch-stores old job why text tells healthy =
      let same = tells old (exceeded_status (script.now Reading.finishing) why text job.status) in
      ground arith

  stored-Runs :
      (phase : PhJobPhase) (job : PhJob)
      → Runs phase (stored equal settings script job none) phase (go job)
  unfolding stored ◌>>=◌
  stored-Runs phase job = (refl, refl)

  -- The job with the default deadline of its group, or with the default TTL.
  abbrev with_deadline : PhJob → PhJob
  with_deadline job = record job {
    spec = record job.spec {
      active_deadline_seconds =
          some (deadline_of_group equal settings script script.fetch_group_deadline);
    };
  }

  abbrev with_ttl : PhJob → PhJob
  with_ttl job = record job {
    spec = record job.spec {
      ttl_seconds_after_finished = some settings.default_ttl_seconds_after_finished;
    };
  }

  default_deadline-Runs :
      (phase : PhJobPhase) (job : PhJob)
      → script.update_deadline ≡ none
      → (next : PhJob) × Runs phase (default_deadline equal settings script job) phase (go next)
        × SameRequest next job
  unfolding default_deadline
  default_deadline-Runs phase job h = elim (Option-cases job.spec.active_deadline_seconds) [
    | inl e ↦ (
      with_deadline job,
      rw (e, h) (stored-Runs phase (with_deadline job)),
      (refl, refl, refl, λ n k. cc),
    )
    | inr (n, e) ↦ (job, rw e (refl, refl), (refl, refl, refl, λ n k. k))
  ]

  default_ttl-Runs :
      (phase : PhJobPhase) (job : PhJob)
      → script.update_ttl ≡ none
      → (next : PhJob) × Runs phase (default_ttl equal settings script job) phase (go next)
        × SameRequest next job
  unfolding default_ttl
  default_ttl-Runs phase job h = elim (Option-cases job.spec.ttl_seconds_after_finished) [
    | inl e ↦
        (with_ttl job, rw (e, h) (stored-Runs phase (with_ttl job)), (refl, refl, refl, λ n k. k))
    | inr (n, e) ↦ (job, rw e (refl, refl), (refl, refl, refl, λ n k. k))
  ]

  fetched-Runs :
      (phase : PhJobPhase) (job : PhJob)
      → script.get_job ≡ ok job
      → Runs phase (fetched equal settings script) phase (go job)
  unfolding fetched
  fetched-Runs phase job h = rw h (refl, refl)

  -- Where no write fails, Reconcile comes to what `dispatch` does with the request.
  pub reconcile-Runs :
      (job : PhJob) (last : PhJobPhase) (exit : Exit (Unit {0}))
      → Healthy script
      → script.get_job ≡ ok job
      → ((next : PhJob)
          → SameRequest next job
          → Runs job.status.phase
              (dispatch equal settings script next.status (set_status next (prologue next.status)))
              last
              exit)
      → Runs job.status.phase (reconcile equal settings script) last exit
  unfolding reconcile
  reconcile-Runs job last exit healthy stored_job rest =
      let phase = job.status.phase in
      let (first, run1, (s1, c1, r1, d1)) = default_deadline-Runs phase job healthy.0 in
      let (second, run2, (s2, c2, r2, d2)) = default_ttl-Runs phase first healthy.1 in
      >>=-Runs phase phase last (fetched equal settings script) _ job exit
        (fetched-Runs phase job stored_job)
        (>>=-Runs phase phase last (default_deadline equal settings script job) _ first exit run1 (
          >>=-Runs phase phase last (default_ttl equal settings script first) _ second exit run2
            (rest second (s2 ∙ s1, c2 ∙ c1, r2 ∙ r1, λ n e. d2 n (d1 n e)))))
