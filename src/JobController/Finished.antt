-- ===== src/JobController/Finished.antt =====
-- A finished job in Reconcile.
use primehub_controller.Prelude.{◌∙◌, ap, Bool, true, false, ◌≡◌, ok, arith, All}
use primehub_controller.PhJob.{PhJobPhase, PhJobStatus, PhJob, in_final_phase}
use primehub_controller.JobAct.{>>=-All}
use primehub_controller.JobPod.{Script, Settings}
use primehub_controller.JobStatus.{set_status}
use primehub_controller.JobController.Limits.{prologue, first_phase, value_of}
use primehub_controller.JobController.{
  fetched, default_deadline, default_ttl, save_status, handle_ttl, final_branch, dispatch,
  reconcile,
}
use primehub_controller.JobController.Gate.{fetched-go, default_deadline-go, default_ttl-go}
use primehub_controller.JobController.Leaves.{
  LeavesPhase, fetched-Leaves, default_deadline-Leaves, default_ttl-Leaves, save_status-Leaves,
  after_ttl-Leaves, handle_ttl-Leaves, handle_ttl-go,
}

module _ (equal : PhJobStatus → PhJobStatus → Bool) (settings : Settings) (script : Script) where
  final_branch-Leaves :
      (phase : PhJobPhase) (old : PhJobStatus) (job : PhJob)
      → job.status.phase ≡ phase
      → All (LeavesPhase phase) (final_branch equal settings script old job).effects
  unfolding final_branch
  final_branch-Leaves phase old job h =
      >>=-All (LeavesPhase phase) (handle_ttl equal settings script job) _
        (handle_ttl-Leaves equal settings script phase job)
        λ next e.
          >>=-All (LeavesPhase phase) (save_status equal settings script old next) _
            (save_status-Leaves equal settings script phase old next
              (handle_ttl-go equal settings script job next e ∙ h))
            λ x _.
              after_ttl-Leaves equal settings script phase
                (value_of next.spec.ttl_seconds_after_finished) next.status.finish_time

  prologue-phase :
      (status : PhJobStatus)
      → in_final_phase status.phase ≡ true
      → (prologue status).phase ≡ status.phase
  unfolding prologue first_phase
  prologue-phase status h = ground arith

  dispatch-final :
      (old : PhJobStatus) (job : PhJob)
      → job.spec.cancel ≡ false
      → in_final_phase job.status.phase ≡ true
      → dispatch equal settings script old job ≡ final_branch equal settings script old job
  unfolding dispatch
  dispatch-final old job cancel final = simp (cancel, final)

  dispatch-Leaves :
      (phase : PhJobPhase) (job : PhJob)
      → job.spec.cancel ≡ false
      → job.status.phase ≡ phase
      → in_final_phase phase ≡ true
      → All
          (LeavesPhase phase)
          (dispatch equal settings script job.status (set_status job (prologue job.status))).effects
  dispatch-Leaves phase job cancel same final =
      let e : (prologue job.status).phase ≡ phase =
        prologue-phase job.status (ap in_final_phase same ∙ final) ∙ same in
      rw
        (dispatch-final job.status (set_status job (prologue job.status)) cancel
          (ap in_final_phase e ∙ final))
        (final_branch-Leaves phase job.status (set_status job (prologue job.status)) e)

  -- A finished job that is not cancelled stays as it finished: whatever the cluster answers, Reconcile
  -- writes no other phase, creates no pod and tells the user nothing; it may delete the pod.
  pub reconcile-LeavesPhase :
      (job : PhJob)
      → script.get_job ≡ ok job
      → job.spec.cancel ≡ false
      → in_final_phase job.status.phase ≡ true
      → All (LeavesPhase job.status.phase) (reconcile equal settings script).effects
  unfolding reconcile
  reconcile-LeavesPhase job stored_job cancel final =
      let phase = job.status.phase in
      >>=-All (LeavesPhase phase) (fetched equal settings script) _
        (fetched-Leaves equal settings script phase)
        λ read e.
          let found = fetched-go equal settings script read e in
          let same : job ≡ read = cc in
          >>=-All (LeavesPhase phase) (default_deadline equal settings script read) _
            (default_deadline-Leaves equal settings script phase read (cc))
            λ first e1.
              let (status1, cancel1) = default_deadline-go equal settings script read first e1 in
              let first_phase_is : first.status.phase ≡ phase = cc in
              >>=-All (LeavesPhase phase) (default_ttl equal settings script first) _
                (default_ttl-Leaves equal settings script phase first first_phase_is)
                λ second e2.
                  let (status2, cancel2) = default_ttl-go equal settings script first second e2 in
                  let second_phase_is : second.status.phase ≡ phase = cc in
                  dispatch-Leaves phase second (cc) second_phase_is final
