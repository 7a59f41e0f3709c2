-- ===== src/StrictOrder/Panics.antt =====
-- When scheduleByStrictOrder dereferences a nil quantity.
use primehub_controller.Prelude.{
  String, lookup, true, ◌≡◌, refl, none, some, List, [], ◌∷◌, arith, ok,
}
use primehub_controller.Numeric.{Numeric}
use primehub_controller.Escapism.{Unicode}
use primehub_controller.Quota.{Quota, validate_resource}
use primehub_controller.PhJob.{PhJob}
use primehub_controller.StrictOrder.{
  Site, Answers, Users, spend_amount, spend_memory, spend, panicked, grant_to, decide, visit_user,
  visit, panic, requested_quota, get_user_remaining_quota_in_group, schedule_by_strict_order,
}
use primehub_controller.StrictOrder.Grants.{Resource, cpu, gpu, memory, amount}

module _ ⦃api : Numeric⦄ where
  open api use {Quantity}

  pub spend-none :
      (ρ : Resource) (quota requested : Quota) {limit : Quantity}
      → amount ρ quota ≡ some limit
      → amount ρ requested ≡ none
      → spend quota requested ≡ none
  unfolding spend spend_amount spend_memory
  spend-none cpu quota requested has missing = ground arith
  spend-none gpu quota requested has missing = ground arith
  spend-none memory quota requested has missing = ground arith

  decide-panic :
      (user : String) (users : Users) (user_quota group requested : Quota)
      → validate_resource requested user_quota ≡ true
      → validate_resource requested group ≡ true
      → spend group requested ≡ none
      → decide user users user_quota group requested ≡ panic
  unfolding decide grant_to
  decide-panic user users user_quota group requested user_ok group_ok no_amount =
      rw (user_ok, group_ok, no_amount)

  module _ (tables : Unicode) (answers : Answers) where
    -- A job at the head of the queue whose instance type names no amount of a resource that the
    -- group's remaining quota limits, and which passes both validations, makes the scheduler panic.
    pub schedule_by_strict_order-panics :
        (ρ : Resource) (job : PhJob) (jobs : List PhJob) (group requested user_quota : Quota)
        {limit : Quantity}
        → requested_quota tables answers Site.ordering job ≡ ok requested
        → get_user_remaining_quota_in_group tables answers job ≡ ok user_quota
        → validate_resource requested user_quota ≡ true
        → validate_resource requested group ≡ true
        → amount ρ group ≡ some limit
        → amount ρ requested ≡ none
        → (schedule_by_strict_order tables answers (job ∷ jobs) [] group).ending ≡ panicked
    unfolding schedule_by_strict_order visit visit_user lookup
    schedule_by_strict_order-panics ρ job jobs group requested user_quota asks fetched user_ok
          group_ok has missing =
        rw (visit_panics, schedule_by_strict_order) refl
      where
        visit_panics : visit tables answers job [] group ≡ panic
        visit_panics =
            rw (asks, visit)
              (rw (fetched, visit_user)
                (decide-panic job.spec.user_name _ user_quota group requested user_ok group_ok
                  (spend-none ρ group requested has missing)))
