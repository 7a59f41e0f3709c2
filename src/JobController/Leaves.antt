-- ===== src/JobController/Leaves.antt =====
-- The steps of Reconcile in ee/controllers/phjob_controller.go on a finished job, up to its final branch.
use primehub_controller.Prelude.{
  not, ◌&&◌, pos, ltb_ℤ, Bool, Bool-cases, Option-cases, ◌≡◌, refl, Option, none, some, ℤ, Result,
  ok, err, inl, inr, arith, All, Error,
}
use primehub_controller.GoTime.{seconds, sub_time, add_time, after}
use primehub_controller.PhJob.{PhJobPhase, PhJobStatus, PhJob}
use primehub_controller.JobAct.{
  Effect, update_job, update_status, delete_pod, create_pod, notify, send_email, go, ◌>>=◌, >>=-All,
}
use primehub_controller.JobPod.{
  Script, Settings, delete_found, delete_pod_of_job, update_ph_job_status,
}
use primehub_controller.JobStatus.{Reading}
use primehub_controller.JobController.Limits.{ttl_status, one_minute, value_of, is_zero}
use primehub_controller.JobController.{
  fetched, stored, default_deadline, default_ttl, check_update, save_status, check_delete, expire,
  handle_ttl, after_ttl, deadline_of_group,
}

-- The effects that a finished job in phase `phase` may have: a write that leaves the phase, and the
-- deletion of its pod.
abbrev pub LeavesPhase : PhJobPhase → Effect → Type 0
LeavesPhase phase (update_job job) = job.status.phase ≡ phase
LeavesPhase phase (update_status job) = job.status.phase ≡ phase
LeavesPhase phase delete_pod = Unit {0}
LeavesPhase phase create_pod = ⊥
LeavesPhase phase (notify p) = ⊥
LeavesPhase phase (send_email p) = ⊥

module _ (equal : PhJobStatus → PhJobStatus → Bool) (settings : Settings) (script : Script) where
  pub fetched-Leaves :
      (phase : PhJobPhase) → All (LeavesPhase phase) (fetched equal settings script).effects
  unfolding fetched
  fetched-Leaves phase = split script.get_job refl
    where
      split :
          (r : Result PhJob)
          → script.get_job ≡ r
          → All (LeavesPhase phase) (fetched equal settings script).effects
      split (ok job) e = rw e tt
      split (err x) e = rw e tt

  stored-Leaves :
      (phase : PhJobPhase) (job : PhJob) (e : Option Error)
      → job.status.phase ≡ phase
      → All (LeavesPhase phase) (stored equal settings script job e).effects
  unfolding stored ◌>>=◌
  stored-Leaves phase job none h = (h, tt)
  stored-Leaves phase job (some e) h = tt

  pub default_deadline-Leaves :
      (phase : PhJobPhase) (job : PhJob)
      → job.status.phase ≡ phase
      → All (LeavesPhase phase) (default_deadline equal settings script job).effects
  unfolding default_deadline
  default_deadline-Leaves phase job h = elim (Option-cases job.spec.active_deadline_seconds) [
    | inl e ↦ rw e (
        stored-Leaves phase
          (record job {
            spec = record job.spec {
              active_deadline_seconds =
                  some (deadline_of_group equal settings script script.fetch_group_deadline);
            };
          })
          script.update_deadline h)
    | inr (n, e) ↦ rw e tt
  ]

  pub default_ttl-Leaves :
      (phase : PhJobPhase) (job : PhJob)
      → job.status.phase ≡ phase
      → All (LeavesPhase phase) (default_ttl equal settings script job).effects
  unfolding default_ttl
  default_ttl-Leaves phase job h = elim (Option-cases job.spec.ttl_seconds_after_finished) [
    | inl e ↦ rw e (
        stored-Leaves phase
          (record job {
            spec = record job.spec {
              ttl_seconds_after_finished = some settings.default_ttl_seconds_after_finished;
            };
          })
          script.update_ttl h)
    | inr (n, e) ↦ rw e tt
  ]

  delete_found-Leaves :
      (phase : PhJobPhase) (e : Option Error)
      → All (LeavesPhase phase) (delete_found settings script e).effects
  unfolding delete_found ◌>>=◌
  delete_found-Leaves phase none = (tt, tt)
  delete_found-Leaves phase (some e) = tt

  delete_pod-Leaves :
      (phase : PhJobPhase) → All (LeavesPhase phase) (delete_pod_of_job settings script).effects
  unfolding delete_pod_of_job
  delete_pod-Leaves phase = elim (Option-cases script.delete_get) [
    | inl e ↦ rw e (delete_found-Leaves phase script.delete_call)
    | inr (x, e) ↦ rw e tt
  ]

  check_delete-Leaves :
      (phase : PhJobPhase) (after : ℤ) (e : Option Error)
      → All (LeavesPhase phase) (check_delete equal settings script after e).effects
  unfolding check_delete
  check_delete-Leaves phase after none = tt
  check_delete-Leaves phase after (some e) = tt

  expire-Leaves :
      (phase : PhJobPhase) (ttl : ℤ) (finish : Option ℤ)
      → All (LeavesPhase phase) (expire equal settings script ttl finish).effects
  unfolding expire
  expire-Leaves phase ttl none = tt
  expire-Leaves phase ttl (some finish) =
      elim (Bool-cases (after (script.now Reading.ttl) (add_time finish (seconds ttl)))) [
        | inl e ↦ rw e (
            >>=-All (LeavesPhase phase) (delete_pod_of_job settings script) _
              (delete_pod-Leaves phase) (λ x _. check_delete-Leaves phase one_minute _))
        | inr e ↦ rw e tt
      ]

  update-Leaves :
      (phase : PhJobPhase) (e : Option Error) (job : PhJob)
      → job.status.phase ≡ phase
      → All
          (LeavesPhase phase)
          (update_ph_job_status settings script e job
            >>= check_update equal settings script).effects
  unfolding update_ph_job_status check_update ◌>>=◌
  update-Leaves phase none job h = (h, tt)
  update-Leaves phase (some e) job h = tt

  pub save_status-Leaves :
      (phase : PhJobPhase) (old : PhJobStatus) (job : PhJob)
      → job.status.phase ≡ phase
      → All (LeavesPhase phase) (save_status equal settings script old job).effects
  unfolding save_status
  save_status-Leaves phase old job h = elim (Bool-cases (equal old job.status)) [
    | inl e ↦ rw e tt
    | inr e ↦ rw e (update-Leaves phase script.last_status job h)
  ]

  pub after_ttl-Leaves :
      (phase : PhJobPhase) (ttl : ℤ) (finish : Option ℤ)
      → All (LeavesPhase phase) (after_ttl equal settings script ttl finish).effects
  unfolding after_ttl
  after_ttl-Leaves phase ttl none = tt
  after_ttl-Leaves phase ttl (some finish) =
      let next = sub_time (add_time finish (seconds ttl)) (script.now Reading.rest_of_ttl) in
      elim (Bool-cases (not (is_zero ttl) && ltb_ℤ (pos 0) next)) [
        | inl e ↦ rw e tt
        | inr e ↦ rw e tt
      ]

  pub handle_ttl-Leaves :
      (phase : PhJobPhase) (job : PhJob)
      → All (LeavesPhase phase) (handle_ttl equal settings script job).effects
  unfolding handle_ttl
  handle_ttl-Leaves phase job =
      elim (Bool-cases (is_zero (value_of job.spec.ttl_seconds_after_finished))) [
        | inl e ↦ rw e tt
        | inr e ↦ rw e (
            >>=-All (LeavesPhase phase)
              (expire equal settings script (value_of job.spec.ttl_seconds_after_finished)
                (ttl_status job.status).finish_time)
              _
              (expire-Leaves phase (value_of job.spec.ttl_seconds_after_finished)
                (ttl_status job.status).finish_time)
              (λ x _. tt))
      ]

  pub handle_ttl-go :
      (job next : PhJob)
      → (handle_ttl equal settings script job).exit ≡ go next
      → next.status.phase ≡ job.status.phase
  unfolding handle_ttl ttl_status ◌>>=◌
  handle_ttl-go job next h = ground arith
