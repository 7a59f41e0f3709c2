-- ===== src/StrictOrder/Budget.antt =====
-- scheduleByStrictOrder hands out no more than the group has left.
use primehub_controller.Prelude.{
  true, false, ◌≡◌, refl, sym, ◌∙◌, ◌⊎◌, inl, inr, some, List, [], ◌∷◌, arith, pos, ◌+ℤ◌, ◌≤ℤ◌, All,
  +ℤ_zero, +ℤ_books, ≤ℤ_of_sum,
}
use primehub_controller.Numeric.{Numeric}
use primehub_controller.Escapism.{Unicode}
use primehub_controller.Quota.{Quota}
use primehub_controller.PhJob.{PhJob, is_pending, is_preparing}
use primehub_controller.StrictOrder.{
  Answers, Users, Verdict, requested_quota, skip, stop, grant, fail, panic, visit, Pass, behind,
  prepare, is_panicked, schedule_by_strict_order,
}
use primehub_controller.StrictOrder.Grants.{
  Resource, amount, paid, requested_amount, requested_amount-ok, sum_requested, granted,
  visit-grant, Visited, Paid,
}

abbrev pub ArePending : List PhJob → Type 0
ArePending = All (λ job. is_pending job.status.phase ≡ true)

module _ ⦃api : Numeric⦄ where
  open api use {Quantity, nanos}

  module _ (tables : Unicode) (answers : Answers) where
    pub granted-ArePending :
        (jobs : List PhJob) → ArePending jobs → granted tables answers jobs ≡ []
    granted-ArePending [] h = refl
    granted-ArePending (job ∷ jobs) h = ground (arith, granted-ArePending jobs h.1)

    module _ (ρ : Resource) where
      -- The books of a pass that began with a limit.
      pub record Books (pass : Pass) (limit : Quantity) : Type 0 where
        pub rest : Quantity
        pub rest_of : amount ρ pass.group ≡ some rest
        pub balance :
            nanos rest +ℤ sum_requested tables answers ρ (granted tables answers pass.jobs)
            ≡ nanos limit
        pub covered : (granted tables answers pass.jobs ≡ []) ⊎ (pos 0 ≤ℤ nanos rest)

      abbrev AllBooks : List PhJob → Type 0
      AllBooks jobs =
          (users : Users) (group : Quota) (limit : Quantity)
          → amount ρ group ≡ some limit
          → is_panicked (schedule_by_strict_order tables answers jobs users group).ending ≡ false
          → Books (schedule_by_strict_order tables answers jobs users group) limit

      Books-refl :
          (jobs : List PhJob) (pass : Pass) (limit : Quantity)
          → ArePending jobs
          → pass.jobs ≡ jobs
          → amount ρ pass.group ≡ some limit
          → Books pass limit
      unfolding sum_requested
      Books-refl jobs pass limit pending same has =
          let none_granted : granted tables answers pass.jobs ≡ [] =
            rw same (granted-ArePending jobs pending) in
          record {
            rest = limit;
            rest_of = has;
            balance = rw none_granted (+ℤ_zero (nanos limit));
            covered = inl none_granted;
          }

      Books-skip :
          (job : PhJob) (pass : Pass) (limit : Quantity)
          → is_pending job.status.phase ≡ true
          → Books pass limit
          → Books (behind job pass) limit
      unfolding behind
      Books-skip job pass limit pending b =
          let not_granted : is_preparing job.status.phase ≡ false = ground arith in
          record {
            rest = b.rest;
            rest_of = b.rest_of;
            balance = rw not_granted b.balance;
            covered = rw not_granted b.covered;
          }

      requested_amount-prepare :
          (job : PhJob)
          → requested_amount tables answers ρ (prepare job) ≡ requested_amount tables answers ρ job
      unfolding requested_quota
      requested_amount-prepare job = refl

      Books-grant :
          (job : PhJob) (users users' : Users) (group group' : Quota) (pass : Pass)
          (limit : Quantity) (v : Visited tables answers job users group users' group')
          (p : Paid ρ group v.requested group' limit)
          → Books pass p.rest
          → Books (behind (prepare job) pass) limit
      unfolding behind sum_requested
      Books-grant job users users' group group' pass limit v p b = record {
        rest = b.rest;
        rest_of = b.rest_of;
        balance =
            rw (requested_amount-prepare job, requested_amount-ok tables answers ρ job v.asks)
              (+ℤ_books (nanos b.rest) _ (nanos p.rest) _ (nanos limit) b.balance p.balance);
        covered = inr (elim b.covered [
          | inr h ↦ h
          | inl none_granted ↦ rw (same_rest none_granted) p.covered
        ]);
      }
        where
          same_rest : granted tables answers pass.jobs ≡ [] → nanos b.rest ≡ nanos p.rest
          same_rest none_granted = sym (+ℤ_zero (nanos b.rest)) ∙ (rw none_granted at b.balance)

      books : (jobs : List PhJob) → ArePending jobs → AllBooks jobs
      unfolding schedule_by_strict_order behind
      books [] pending users group limit has calm = Books-refl [] _ limit tt refl has
      books (job ∷ jobs) pending users group limit has calm =
          step (visit tables answers job users group) refl (books jobs pending.1)
        where
          step :
              (v : Verdict)
              → visit tables answers job users group ≡ v
              → AllBooks jobs
              → Books (schedule_by_strict_order tables answers (job ∷ jobs) users group) limit
          step (skip users') e ih =
              rw (e, schedule_by_strict_order)
                (Books-skip job (schedule_by_strict_order tables answers jobs users' group) limit
                  pending.0 (ih users' group limit has (rw (e, schedule_by_strict_order) at calm)))
          step stop e ih =
              rw (e, schedule_by_strict_order) (Books-refl (job ∷ jobs) _ limit pending refl has)
          step (grant users' group') e ih =
              let v = visit-grant tables answers job users group e in
              let p =
                paid ρ limit group v.requested group' has v.granted_to.group_valid
                  v.granted_to.group_spent in
              rw (e, schedule_by_strict_order)
                (Books-grant job users users' group group'
                  (schedule_by_strict_order tables answers jobs users' group') limit v p
                  (ih users' group' p.rest p.rest_of (rw (e, schedule_by_strict_order) at calm)))
          step (fail x) e ih =
              rw (e, schedule_by_strict_order) (Books-refl (job ∷ jobs) _ limit pending refl has)
          step panic e ih = absurd (cc (rw (e, schedule_by_strict_order) at calm))

      -- In a pass that does not panic the jobs that are set to Preparing together ask for no more than
      -- the limit that the group's quota had when the pass began, for each of CPU, GPU and memory.
      pub sum_granted-le_limit :
          (jobs : List PhJob) (users : Users) (group : Quota) (limit : Quantity)
          → ArePending jobs
          → amount ρ group ≡ some limit
          → is_panicked (schedule_by_strict_order tables answers jobs users group).ending ≡ false
          → (granted tables answers (schedule_by_strict_order tables answers jobs users group).jobs
              ≡ [])
            ⊎ (sum_requested tables answers ρ (
                  granted tables answers
                    (schedule_by_strict_order tables answers jobs users group).jobs)
                ≤ℤ nanos limit)
      sum_granted-le_limit jobs users group limit pending has calm =
          let b = books jobs pending users group limit has calm in
          elim b.covered [
            | inl none_granted ↦ inl none_granted
            | inr covered ↦ inr (≤ℤ_of_sum (nanos b.rest) _ (nanos limit) covered b.balance)
          ]
