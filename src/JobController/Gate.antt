-- ===== src/JobController/Gate.antt =====
-- Which jobs get a pod: only those that the scheduler has let through.
use primehub_controller.Prelude.{
  Option-cases, String, Bool, true, false, ◌≡◌, refl, List, [], ◌∷◌, ◌++◌, ok, inl, inr, arith,
}
use primehub_controller.PhJob.{
  PhJobPhase, PhJobReason, PhJobStatus, PhJob, is_pending, in_final_phase,
}
use primehub_controller.JobAct.{
  Effect, update_job, update_status, delete_pod, create_pod, notify, send_email, Exit, go, done,
  panics, continue, Act, ◌>>=◌,
}
use primehub_controller.JobPod.{Script, Settings, delete_pod_of_job, update_ph_job_status}
use primehub_controller.JobStatus.{Reading, set_status}
use primehub_controller.JobController.Limits.{prologue, first_phase, failure}
use primehub_controller.JobController.{
  fetched, stored, default_deadline, default_ttl, check_update, save_status, save_and_notify,
  check_delete, cancel_branch, expire, handle_ttl, after_ttl, final_branch, exceeded_branch,
  next_check, pod_of, active_branch, dispatch, reconcile,
}

-- Whether a pod is created among some effects.
abbrev pub creates : List Effect → Bool
creates [] = false
creates (create_pod ∷ effects) = true
creates (_ ∷ effects) = creates effects

-- The phases in which a job may have a pod.
abbrev pub may_run : PhJobPhase → Bool
may_run PhJobPhase.preparing = true
may_run PhJobPhase.running = true
may_run _ = false

creates-append :
    (a b : List Effect) → creates a ≡ false → creates (a ++ b) ≡ true → creates b ≡ true
creates-append [] b h k = k
creates-append (update_job j ∷ a) b h k = creates-append a b h k
creates-append (update_status j ∷ a) b h k = creates-append a b h k
creates-append (delete_pod ∷ a) b h k = creates-append a b h k
creates-append (create_pod ∷ a) b h k = ground arith
creates-append (notify p ∷ a) b h k = creates-append a b h k
creates-append (send_email p ∷ a) b h k = creates-append a b h k

module _ (equal : PhJobStatus → PhJobStatus → Bool) (settings : Settings) (script : Script) where
  creates-cancel_branch :
      (old : PhJobStatus) (job : PhJob)
      → creates (cancel_branch equal settings script old job).effects ≡ false
  unfolding cancel_branch check_delete save_and_notify check_update delete_pod_of_job
      update_ph_job_status ◌>>=◌
  creates-cancel_branch old job = ground arith

  creates-final_branch :
      (old : PhJobStatus) (job : PhJob)
      → creates (final_branch equal settings script old job).effects ≡ false
  unfolding final_branch handle_ttl expire after_ttl check_delete save_status check_update
      delete_pod_of_job update_ph_job_status ◌>>=◌
  creates-final_branch old job = ground arith

  creates-exceeded_branch :
      (old : PhJobStatus) (job : PhJob) (why : PhJobReason) (text : String)
      → creates (exceeded_branch equal settings script old job why text).effects ≡ false
  unfolding exceeded_branch check_delete save_and_notify check_update delete_pod_of_job
      update_ph_job_status ◌>>=◌
  creates-exceeded_branch old job why text = ground arith

  creates-save_and_check :
      (old : PhJobStatus) (job : PhJob)
      → creates
          (save_status equal settings script old job >>= λ _.
            next_check equal settings script job job.status.start_time).effects
        ≡ false
  unfolding next_check save_status check_update update_ph_job_status ◌>>=◌
  creates-save_and_check old job = ground arith

  creates-active_branch :
      (old : PhJobStatus) (job : PhJob)
      → is_pending job.status.phase ≡ true
      → creates (active_branch equal settings script old job).effects ≡ false
  unfolding active_branch pod_of ◌>>=◌
  creates-active_branch old job h = rw h (creates-save_and_check old job)

  -- The branches of Reconcile behind the defaults. The phase is not unset any more.
  dispatch-creates :
      (old : PhJobStatus) (job : PhJob)
      → creates (dispatch equal settings script old job).effects ≡ true
      → (job.spec.cancel ≡ false)
        × (in_final_phase job.status.phase ≡ false)
        × (is_pending job.status.phase ≡ false)
  unfolding dispatch
  dispatch-creates old job h = elim (Option-cases (failure (script.now Reading.deadline) job)) [
    | inl none_left ↦ ground (
      arith,
      none_left,
      creates-cancel_branch old job,
      creates-final_branch old job,
      creates-active_branch old job,
    )
    | inr ((why, text), e) ↦ ground (
      arith,
      e,
      creates-cancel_branch old job,
      creates-final_branch old job,
      creates-exceeded_branch old job why text,
    )
  ]

  -- A pod that two parts create is created by the second, where the first creates none.
  >>=-creates :
      {A B : Type 0} (m : Act A) (f : A → Act B)
      → creates m.effects ≡ false
      → creates (m >>= f).effects ≡ true
      → (a : A) × (m.exit ≡ go a) × (creates (f a).effects ≡ true)
  unfolding ◌>>=◌
  >>=-creates {A = A} {B = B} m f quiet h = split m.exit h
    where
      split :
          (x : Exit A)
          → creates (continue m.effects x f).effects ≡ true
          → (a : A) × (x ≡ go a) × (creates (f a).effects ≡ true)
      split (go a) h = (a, refl, creates-append m.effects (f a).effects quiet h)
      split (done r e) h = ground arith
      split panics h = ground arith

  pub fetched-go :
      (job : PhJob) → (fetched equal settings script).exit ≡ go job → script.get_job ≡ ok job
  unfolding fetched
  fetched-go job h = ground arith

  pub default_deadline-go :
      (job next : PhJob)
      → (default_deadline equal settings script job).exit ≡ go next
      → (next.status ≡ job.status) × (next.spec.cancel ≡ job.spec.cancel)
  unfolding default_deadline stored ◌>>=◌
  default_deadline-go job next h = ground arith

  pub default_ttl-go :
      (job next : PhJob)
      → (default_ttl equal settings script job).exit ≡ go next
      → (next.status ≡ job.status) × (next.spec.cancel ≡ job.spec.cancel)
  unfolding default_ttl stored ◌>>=◌
  default_ttl-go job next h = ground arith

  creates-fetched : creates (fetched equal settings script).effects ≡ false
  unfolding fetched
  creates-fetched = ground arith

  creates-default_deadline :
      (job : PhJob) → creates (default_deadline equal settings script job).effects ≡ false
  unfolding default_deadline stored ◌>>=◌
  creates-default_deadline job = ground arith

  creates-default_ttl :
      (job : PhJob) → creates (default_ttl equal settings script job).effects ≡ false
  unfolding default_ttl stored ◌>>=◌
  creates-default_ttl job = ground arith

  prologue-may_run :
      (status : PhJobStatus)
      → in_final_phase (prologue status).phase ≡ false
      → is_pending (prologue status).phase ≡ false
      → may_run status.phase ≡ true
  unfolding prologue first_phase
  prologue-may_run status h k = ground arith

  -- Reconcile creates a pod only for a job that is not cancelled and that the scheduler has moved to
  -- Preparing, or that has run already: whatever the cluster answers, a pending or a new job gets none.
  pub reconcile-creates :
      (job : PhJob)
      → script.get_job ≡ ok job
      → creates (reconcile equal settings script).effects ≡ true
      → (job.spec.cancel ≡ false) × (may_run job.status.phase ≡ true)
  unfolding reconcile
  reconcile-creates job stored_job h =
      let (fetched_job, e, h1) = >>=-creates (fetched equal settings script) _ creates-fetched h in
      let (first, e1, h2) =
        >>=-creates (default_deadline equal settings script fetched_job) _
          (creates-default_deadline fetched_job) h1 in
      let (second, e2, h3) =
        >>=-creates (default_ttl equal settings script first) _ (creates-default_ttl first) h2 in
      let (status2, cancel2) = default_ttl-go first second e2 in
      let (status1, cancel1) = default_deadline-go fetched_job first e1 in
      let (cancel, not_final, not_pending) =
        dispatch-creates second.status (set_status second (prologue second.status)) h3 in
      let may = prologue-may_run second.status not_final not_pending in
      let same = fetched-go fetched_job e in (cc, cc)
