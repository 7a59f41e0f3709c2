-- ===== src/Application/Phases.antt =====
-- The phase of an application, by what the cluster shows.
use primehub_controller.Prelude.{
  Bool, List, Option, Result, String, false, true, some, none, ok, err, ◌≡◌, ◌≢◌, ◌⊎◌, refl, inl,
  inr, Error, pos,
}
use primehub_controller.Deployment.Status.{int_eq}
use primehub_controller.Deployment.Phases.{if-Means, int_eq-eq, int_eq-ne}
use primehub_controller.Application.Reasons.{Fails, Reports, quiet, loud, diagnosis_status-Reports}
use primehub_controller.Application.Status.{
  AppDeploymentStatus, AppPod, ApplicationPhase, starting, ready, updating, stopping, stopped,
  failing, Verdict, verdict, started_phase, diagnosis_status,
}

-- What each phase says: of the error of the reconciliations, the flag to stop, and the answers.
unfoldable pub Shows :
    Option Error
    → Bool
    → Result AppDeploymentStatus
    → Result (List AppPod)
    → ApplicationPhase
    → Type 0
Shows (some e) stop status pods phase = phase ≡ failing
Shows none stop (err e) pods phase = phase ≡ failing
Shows none true (ok status) pods phase =
    ((phase ≡ stopped) × (status.replicas ≡ pos 0))
    ⊎ ((phase ≡ stopping) × (status.replicas ≢ pos 0))
Shows none false (ok status) (err e) phase = ⊥
Shows none false (ok status) (ok pods) phase =
    ((phase ≡ failing) × Fails status pods)
    ⊎ ((¬ Fails status pods)
        × (((phase ≡ starting) × (status.ready_replicas ≡ pos 0))
            ⊎ (((phase ≡ ready)
                  × (status.ready_replicas ≡ status.replicas)
                  × (status.ready_replicas ≢ pos 0))
                ⊎ ((phase ≡ updating)
                    × (status.ready_replicas ≢ status.replicas)
                    × (status.ready_replicas ≢ pos 0)))))

started_phase-Shows :
    (status : AppDeploymentStatus) (pods : List AppPod) (found : Option String)
    → Reports (Fails status pods) found
    → Shows none false (ok status) (ok pods) (started_phase status found).0
unfolding Shows started_phase
started_phase-Shows status pods (some m) (loud _ e) = inl (refl, e)
started_phase-Shows status pods none (quiet e) =
    let Says : Verdict → Type 0 = λ (v : Verdict). Shows none false (ok status) (ok pods) v.0 in
    if-Means (int_eq status.ready_replicas (pos 0)) Says _ _
      (λ down. inr (e, inl (refl, int_eq-eq status.ready_replicas (pos 0) down)))
      (λ up.
        let some_up = int_eq-ne status.ready_replicas (pos 0) up in
        if-Means (int_eq status.ready_replicas status.replicas) Says _ _
          (λ all.
            inr (e, inr (inl (refl, int_eq-eq status.ready_replicas status.replicas all, some_up))))
          (λ partly.
            inr (
              e,
              inr (inr (refl, int_eq-ne status.ready_replicas status.replicas partly, some_up)),
            )))

module _ (describe : Error → String) where
  -- A verdict that is reached shows its phase.
  unfoldable pub ShowsVerdict :
      Option Error
      → Bool
      → Result AppDeploymentStatus
      → Result (List AppPod)
      → Option Verdict
      → Type 0
  ShowsVerdict error stop status pods none =
      (error ≡ none) × (stop ≡ false) × ((e : Error) × (pods ≡ err e))
  ShowsVerdict error stop status pods (some v) = Shows error stop status pods v.0

  -- updatePhApplicationStatus sets Error after an error of the reconciliations or of the Get of the
  -- deployment; for an application that is to stop, Stopped where the deployment has no replica, and
  -- Stopping where it has some; and for another, Error exactly if the deployment has a condition
  -- FailedCreate, or one of its pods a condition Unschedulable or a first container that waits with a
  -- message or ended with a reason, and else Starting where no replica is ready, Ready where all are, and
  -- Updating where some are. It panics only for an application that is not to stop, where the List of the
  -- pods fails and nothing failed before.
  pub verdict-Shows :
      (error : Option Error) (stop : Bool) (status : Result AppDeploymentStatus)
      (pods : Result (List AppPod))
      → ShowsVerdict error stop status pods (verdict describe error stop status pods)
  unfolding verdict ShowsVerdict Shows
  verdict-Shows (some e) stop status pods = refl
  verdict-Shows none stop (err e) pods = refl
  verdict-Shows none true (ok status) pods =
      if-Means (int_eq status.replicas (pos 0))
        (λ (v : Verdict). Shows none true (ok status) pods v.0) _ _
        (λ down. inl (refl, int_eq-eq status.replicas (pos 0) down))
        (λ up. inr (refl, int_eq-ne status.replicas (pos 0) up))
  verdict-Shows none false (ok status) (err e) = (refl, refl, (e, refl))
  verdict-Shows none false (ok status) (ok pods) =
      started_phase-Shows status pods (diagnosis_status status pods)
        (diagnosis_status-Reports status pods)
