-- ===== src/StrictOrder/Promotions.antt =====
-- The jobs that a pass sets to Preparing are pending jobs of its queue, otherwise unchanged.
use primehub_controller.Prelude.{false, ◌≡◌, refl, List, [], ◌∷◌, arith, All}
use primehub_controller.Numeric.{Numeric}
use primehub_controller.Escapism.{Unicode}
use primehub_controller.Quota.{Quota}
use primehub_controller.PhJob.{PhJob, is_preparing}
use primehub_controller.StrictOrder.{
  Answers, Users, Verdict, skip, stop, grant, fail, panic, visit, behind, prepare,
  schedule_by_strict_order,
}
use primehub_controller.StrictOrder.Grants.{granted}
use primehub_controller.StrictOrder.Budget.{ArePending, granted-ArePending}

module _ ⦃api : Numeric⦄ (tables : Unicode) (answers : Answers) (P : PhJob → Type 0) where
  -- A job as a pass promotes it.
  abbrev pub IsPromotion : PhJob → Type 0
  IsPromotion written = (job : PhJob) × P job × (written ≡ prepare job)

  abbrev AllPromotions : List PhJob → Type 0
  AllPromotions jobs =
      (users : Users) (group : Quota)
      → All IsPromotion
          (granted tables answers (schedule_by_strict_order tables answers jobs users group).jobs)

  pub granted-IsPromotion : (jobs : List PhJob) → ArePending jobs → All P jobs → AllPromotions jobs
  unfolding schedule_by_strict_order behind
  granted-IsPromotion [] pending h users group = tt
  granted-IsPromotion (job ∷ jobs) pending h users group =
      step (visit tables answers job users group) refl (granted-IsPromotion jobs pending.1 h.1)
    where
      not_granted : is_preparing job.status.phase ≡ false
      not_granted = let head = pending.0 in ground arith

      step :
          (v : Verdict)
          → visit tables answers job users group ≡ v
          → AllPromotions jobs
          → All IsPromotion (
              granted tables answers
                (schedule_by_strict_order tables answers (job ∷ jobs) users group).jobs)
      step (skip users') e ih = rw (e, schedule_by_strict_order) (rw not_granted (ih users' group))
      step stop e ih =
          rw (e, schedule_by_strict_order, granted-ArePending tables answers (job ∷ jobs) pending)
            tt
      step (grant users' group') e ih =
          rw (e, schedule_by_strict_order) ((job, h.0, refl), ih users' group')
      step (fail x) e ih =
          rw (e, schedule_by_strict_order, granted-ArePending tables answers (job ∷ jobs) pending)
            tt
      step panic e ih =
          rw (e, schedule_by_strict_order)
            ((job, h.0, refl), rw (granted-ArePending tables answers jobs pending.1) tt)
