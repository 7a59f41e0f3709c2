-- ===== src/JobController/Outcome.antt =====
-- What Reconcile stores for a job that is cancelled or that exceeds a limit.
use primehub_controller.Prelude.{
  Bool-cases, ℕ, ◌*◌, ◌<◌, ◌≤◌, ◌+ℤ◌, ◌≤ℤ◌, ◌↔◌, sym, ltb_ℤ, ap, String, Bool, true, false, ◌≡◌,
  refl, ◌∙◌, inl, inr, none, some, ℤ, pos, ok, arith,
}
use primehub_controller.GoTime.{seconds-pos, sub_time_reaches}
use primehub_controller.PhJob.{PhJobPhase, PhJobReason, PhJobStatus, PhJob, in_final_phase}
use primehub_controller.JobAct.{done}
use primehub_controller.JobPod.{Script, Settings}
use primehub_controller.JobStatus.{Reading, set_status}
use primehub_controller.JobController.Limits.{
  one_minute, is_zero, exceeds_requeue_limit, past_active_deadline, value_of, prologue, first_phase,
  failure,
}
use primehub_controller.JobController.{cancel_branch, exceeded_branch, dispatch, reconcile}
use primehub_controller.JobController.Ends.{
  Runs, Healthy, TellsPhases, cancel_branch-stores, exceeded_branch-stores, reconcile-Runs,
}

-- pastActiveDeadline is true exactly from the deadline on. Its hypothesis keeps the deadline, in
-- nanoseconds, within an int64.
pub past_active_deadline_iff :
    (now start : ℤ) (deadline : ℕ)
    → 0 < deadline
    → deadline ≤ 9223372036
    → (past_active_deadline now (pos deadline) (some start) ≡ true)
      ↔ (start +ℤ pos (deadline * 1000000000) ≤ℤ now)
unfolding past_active_deadline
past_active_deadline_iff now start deadline positive bounded =
    let exact = seconds-pos deadline bounded in
    let reaches = sub_time_reaches now start (deadline * 1000000000) (omega arith) in
    let nonzero : is_zero (pos deadline) ≡ false = ground arith in rw (nonzero, exact) reaches

abbrev deadline_text : String
deadline_text = "phJob has failed because it was active longer than specified deadline"

prologue-requeued :
    (status : PhJobStatus) (n : ℤ) → status.requeued ≡ some n → (prologue status).requeued ≡ some n
unfolding prologue first_phase
prologue-requeued status n h = ground arith

prologue-start_time : (status : PhJobStatus) → (prologue status).start_time ≡ status.start_time
unfolding prologue first_phase
prologue-start_time status = ground arith

abbrev requeue_text : String
requeue_text = "phJob has failed because it was requeued more than specified times"

module _ (equal : PhJobStatus → PhJobStatus → Bool) (settings : Settings) (script : Script) where
  dispatch-cancel :
      (old : PhJobStatus) (job : PhJob)
      → job.spec.cancel ≡ true
      → dispatch equal settings script old job ≡ cancel_branch equal settings script old job
  unfolding dispatch
  dispatch-cancel old job cancel = simp cancel

  dispatch-exceeded :
      (old : PhJobStatus) (job : PhJob) (why : PhJobReason) (text : String)
      → job.spec.cancel ≡ false
      → in_final_phase job.status.phase ≡ false
      → failure (script.now Reading.deadline) job ≡ some (why, text)
      → dispatch equal settings script old job
        ≡ exceeded_branch equal settings script old job why text
  unfolding dispatch
  dispatch-exceeded old job why text cancel not_final fails = simp (cancel, not_final, fails)

  prologue-not_final :
      (status : PhJobStatus)
      → in_final_phase status.phase ≡ false
      → in_final_phase (prologue status).phase ≡ false
  unfolding prologue first_phase
  prologue-not_final status h = ground arith

  failure-OverRequeueLimit :
      (job : PhJob) (limit requeued : ℤ)
      → job.spec.requeue_limit ≡ some limit
      → job.status.requeued ≡ some requeued
      → ltb_ℤ limit requeued ≡ true
      → failure (script.now Reading.deadline) (set_status job (prologue job.status))
        ≡ some (PhJobReason.over_requeue_limit, requeue_text)
  unfolding failure exceeds_requeue_limit
  failure-OverRequeueLimit job limit requeued has_limit has_requeued over =
      let same = prologue-requeued job.status requeued has_requeued in
      rw (has_limit, same, over) refl

  failure-OverDeadline :
      (job : PhJob) (deadline : ℕ) (start : ℤ)
      → 0 < deadline
      → deadline ≤ 9223372036
      → job.spec.active_deadline_seconds ≡ some (pos deadline)
      → job.status.start_time ≡ some start
      → start +ℤ pos (deadline * 1000000000) ≤ℤ script.now Reading.deadline
      → (why : PhJobReason) × (text : String) × (failure
            (script.now Reading.deadline)
            (set_status job (prologue job.status))
          ≡ some (why, text))
  unfolding failure
  failure-OverDeadline job deadline start positive bounded has_deadline has_start past =
      let now = script.now Reading.deadline in
      let late = (past_active_deadline_iff now start deadline positive bounded).1 past in
      let same_start = prologue-start_time job.status ∙ has_start in
      elim (Bool-cases
        (exceeds_requeue_limit job.spec.requeue_limit (value_of (prologue job.status).requeued))) [
          | inl over ↦ (PhJobReason.over_requeue_limit, requeue_text, simp over)
          | inr within ↦ (
            PhJobReason.over_activate_deadline,
            deadline_text,
            simp (within, has_deadline, same_start, late),
          )
        ]

  -- Where no write and no deletion fails and equal statuses have the same phase, a job that is to be
  -- cancelled is Cancelled in the API server when Reconcile returns, from whatever phase, and it is
  -- not looked at again.
  pub reconcile-cancels :
      (job : PhJob)
      → TellsPhases equal
      → Healthy script
      → script.get_job ≡ ok job
      → job.spec.cancel ≡ true
      → Runs job.status.phase
          (reconcile equal settings script)
          PhJobPhase.cancelled
          (done (pos 0) none)
  reconcile-cancels job tells healthy stored_job cancel =
      reconcile-Runs equal settings script job PhJobPhase.cancelled _ healthy stored_job
        λ next (status, same_cancel, _, _).
          rw
            (
              ap (λ s. s.phase) (sym status),
              dispatch-cancel next.status (set_status next (prologue next.status))
                  (same_cancel ∙ cancel),
            )
            (cancel_branch-stores equal settings script next.status
              (set_status next (prologue next.status)) tells healthy)

  -- Where no write and no deletion fails and equal statuses have the same phase, a job that is
  -- neither cancelled nor finished and that was requeued more often than its limit allows is Failed
  -- in the API server when Reconcile returns.
  pub reconcile-OverRequeueLimit :
      (job : PhJob) (limit requeued : ℤ)
      → TellsPhases equal
      → Healthy script
      → script.get_job ≡ ok job
      → job.spec.cancel ≡ false
      → in_final_phase job.status.phase ≡ false
      → job.spec.requeue_limit ≡ some limit
      → job.status.requeued ≡ some requeued
      → ltb_ℤ limit requeued ≡ true
      → Runs job.status.phase
          (reconcile equal settings script)
          PhJobPhase.failed
          (done one_minute none)
  reconcile-OverRequeueLimit job limit requeued tells healthy stored_job cancel not_final has_limit
        has_requeued over =
      reconcile-Runs equal settings script job PhJobPhase.failed _ healthy stored_job
        λ next (status, same_cancel, same_limit, _).
          let job' = set_status next (prologue next.status) in
          rw
            (
              ap (λ s. s.phase) (sym status),
              dispatch-exceeded next.status job' PhJobReason.over_requeue_limit requeue_text
                  (same_cancel ∙ cancel)
                  (prologue-not_final next.status
                    (ap (λ s. in_final_phase s.phase) status ∙ not_final))
                  (failure-OverRequeueLimit next limit requeued (same_limit ∙ has_limit)
                    (ap (λ s. s.requeued) status ∙ has_requeued) over),
            )
            (exceeded_branch-stores equal settings script next.status job'
              PhJobReason.over_requeue_limit requeue_text tells healthy)

  -- Where no write and no deletion fails and equal statuses have the same phase, a job that is
  -- neither cancelled nor finished and whose own deadline of 1 to 9223372036 seconds has run out
  -- since its start is Failed in the API server when Reconcile returns.
  pub reconcile-OverDeadline :
      (job : PhJob) (deadline : ℕ) (start : ℤ)
      → TellsPhases equal
      → Healthy script
      → script.get_job ≡ ok job
      → job.spec.cancel ≡ false
      → in_final_phase job.status.phase ≡ false
      → 0 < deadline
      → deadline ≤ 9223372036
      → job.spec.active_deadline_seconds ≡ some (pos deadline)
      → job.status.start_time ≡ some start
      → start +ℤ pos (deadline * 1000000000) ≤ℤ script.now Reading.deadline
      → Runs job.status.phase
          (reconcile equal settings script)
          PhJobPhase.failed
          (done one_minute none)
  reconcile-OverDeadline job deadline start tells healthy stored_job cancel not_final positive
        bounded has_deadline has_start past =
      reconcile-Runs equal settings script job PhJobPhase.failed _ healthy stored_job
        λ next (status, same_cancel, _, same_deadline).
          let job' = set_status next (prologue next.status) in
          let (why, text, fails) =
            failure-OverDeadline next deadline start positive bounded
              (same_deadline (pos deadline) has_deadline)
              (ap (λ s. s.start_time) status ∙ has_start) past in
          rw
            (
              ap (λ s. s.phase) (sym status),
              dispatch-exceeded next.status job' why text (same_cancel ∙ cancel)
                  (prologue-not_final next.status
                    (ap (λ s. in_final_phase s.phase) status ∙ not_final))
                  fails,
            )
            (exceeded_branch-stores equal settings script next.status job' why text tells healthy)
