-- ===== src/StrictOrder/Grants.antt =====
-- What a visit that grants a job says of the quotas: the job asks for amounts that are left, and they
-- are taken off.
use primehub_controller.Prelude.{
  String, Bool-cases, Option-cases, true, ◌≡◌, refl, ap, ◌∙◌, ◌⊎◌, inl, inr, Option, none, some,
  List, [], ◌∷◌, arith, ℤ, pos, ◌+ℤ◌, ◌≤ℤ◌, int_laws, keep, ok, err, Result-cases, lookup, insert,
  -ℤ_restore,
}
use primehub_controller.Numeric.{Numeric}
use primehub_controller.Escapism.{Unicode}
use primehub_controller.Quota.{Quota, validate_resource}
use primehub_controller.Quota.Validation.{Within, Fits, validate_resource_iff}
use primehub_controller.PhJob.{PhJob, is_preparing}
use primehub_controller.StrictOrder.{
  Site, Answers, Users, spend_amount, spend, grant, grant_to, decide, visit_user, visit,
  requested_quota, get_user_remaining_quota_in_group,
}

-- The three amounts of a quota.
pub data Resource : Type 0 where
  cpu gpu memory : Resource

module _ ⦃api : Numeric⦄ where
  open api use {Quantity, nanos, nanos-sub}

  abbrev pub amount : Resource → Quota → Option Quantity
  amount cpu quota = quota.cpu
  amount gpu quota = quota.gpu
  amount memory quota = quota.memory

  abbrev pub nanos_or_zero : Option Quantity → ℤ
  nanos_or_zero (some q) = nanos q
  nanos_or_zero none = pos 0

  -- What a subtraction that does not panic leaves.
  abbrev pub Spent : Option Quantity → Option Quantity → Option Quantity → Type 0
  Spent none requested left = left ≡ none
  Spent (some limit) none left = ⊥
  Spent (some limit) (some requested) left = left ≡ some (api.sub limit requested)

  spend_amount-Spent :
      (limit requested left : Option Quantity)
      → spend_amount limit requested ≡ some left
      → Spent limit requested left
  unfolding spend_amount
  spend_amount-Spent none requested left e = cc
  spend_amount-Spent (some limit) none left e = cc
  spend_amount-Spent (some limit) (some requested) left e = cc

  pub spend-Spent :
      (ρ : Resource) (quota requested left : Quota)
      → spend quota requested ≡ some left
      → Spent (amount ρ quota) (amount ρ requested) (amount ρ left)
  unfolding spend
  spend-Spent cpu quota requested left e =
      spend_amount-Spent quota.cpu requested.cpu left.cpu (ground arith)
  spend-Spent gpu quota requested left e =
      spend_amount-Spent quota.gpu requested.gpu left.gpu (ground arith)
  spend-Spent memory quota requested left e =
      spend_amount-Spent quota.memory requested.memory left.memory (ground arith)

  Within-amount :
      (ρ : Resource) (requested quota : Quota)
      → Fits requested quota
      → Within (amount ρ requested) (amount ρ quota)
  Within-amount cpu requested quota fits = fits.cpu
  Within-amount gpu requested quota fits = fits.gpu
  Within-amount memory requested quota fits = fits.memory

  -- A limit goes down by what is spent, and what is left of it is not negative.
  pub record Paid (ρ : Resource) (before requested after : Quota) (limit : Quantity) : Type 0 where
    pub rest : Quantity
    pub rest_of : amount ρ after ≡ some rest
    pub balance : nanos rest +ℤ nanos_or_zero (amount ρ requested) ≡ nanos limit
    pub covered : pos 0 ≤ℤ nanos rest

  pub paid :
      (ρ : Resource) (limit : Quantity) (before requested after : Quota)
      → amount ρ before ≡ some limit
      → validate_resource requested before ≡ true
      → spend before requested ≡ some after
      → Paid ρ before requested after limit
  paid ρ limit before requested after has valid spent =
      pay (amount ρ before) (amount ρ requested) has
        (Within-amount ρ requested before ((validate_resource_iff requested before).0 valid))
        (spend-Spent ρ before requested after spent) refl
    where
      pay :
          (l r : Option Quantity)
          → l ≡ some limit
          → Within r l
          → Spent l r (amount ρ after)
          → amount ρ requested ≡ r
          → Paid ρ before requested after limit
      pay none r e w s h = cc
      pay (some l) none e w s h = absurd s
      pay (some l) (some r) e w s h = record {
        rest = api.sub l r;
        rest_of = s;
        balance =
            let same : l ≡ limit = cc in
            rw (h, nanos-sub l r) (-ℤ_restore (nanos l) (nanos r) ∙ ap nanos same);
        covered = rw (nanos-sub l r) (omega int_laws);
      }

  -- What a grant says of the quotas that it was decided on.
  pub record Granted (users : Users) (user : String) (user_quota group requested : Quota)
      (users' : Users) (group' : Quota) : Type 0 where
    pub user_left : Quota
    pub user_valid : validate_resource requested user_quota ≡ true
    pub group_valid : validate_resource requested group ≡ true
    pub group_spent : spend group requested ≡ some group'
    pub user_spent : spend user_quota requested ≡ some user_left
    pub recorded : users' ≡ insert user user_left users

  grant_to-eq_grant :
      (user : String) (users : Users) (group_left user_left : Option Quota) {users' : Users}
      {group' : Quota}
      → grant_to user users group_left user_left ≡ grant users' group'
      → (left : Quota) × (group_left ≡ some group')
        × (user_left ≡ some left)
        × (users' ≡ insert user left users)
  unfolding grant_to
  grant_to-eq_grant user users none u e = absurd (cc)
  grant_to-eq_grant user users (some g) none e = absurd (cc)
  grant_to-eq_grant user users (some g) (some u) e = (u, cc, refl, cc)

  pub decide-Granted :
      (user : String) (users : Users) (user_quota group requested : Quota) {users' : Users}
      {group' : Quota}
      → decide user users user_quota group requested ≡ grant users' group'
      → Granted users user user_quota group requested users' group'
  unfolding decide
  decide-Granted user users user_quota group requested e =
      elim (Bool-cases (validate_resource requested user_quota)) [
        | inr invalid ↦ absurd (ground arith)
        | inl user_valid ↦ elim (Bool-cases (validate_resource requested group)) [
          | inr invalid ↦ absurd (ground arith)
          | inl group_valid ↦
              let (left, group_spent, user_spent, recorded) =
                grant_to-eq_grant user users (spend group requested) (spend user_quota requested)
                  (ground arith) in
              record {
                user_left = left;
                user_valid = user_valid;
                group_valid = group_valid;
                group_spent = group_spent;
                user_spent = user_spent;
                recorded = recorded;
              }
        ]
      ]

  module _ (tables : Unicode) (answers : Answers) where
    -- How much of a resource the instance type of a job asks for.
    abbrev pub requested_amount : Resource → PhJob → ℤ
    requested_amount ρ job = elim (requested_quota tables answers Site.ordering job) [
      | ok requested ↦ nanos_or_zero (amount ρ requested)
      | err e ↦ pos 0
    ]

    pub requested_amount-ok :
        (ρ : Resource) (job : PhJob) {requested : Quota}
        → requested_quota tables answers Site.ordering job ≡ ok requested
        → requested_amount ρ job ≡ nanos_or_zero (amount ρ requested)
    requested_amount-ok ρ job e = rw (e, requested_amount)

    unfoldable pub sum_requested : Resource → List PhJob → ℤ
    sum_requested ρ [] = pos 0
    sum_requested ρ (job ∷ jobs) = requested_amount ρ job +ℤ sum_requested ρ jobs

    -- The jobs that a pass has set to Preparing.
    abbrev pub granted : List PhJob → List PhJob
    granted = keep (λ job. is_preparing job.status.phase)

    -- The quota of the job's user: the one in the map, or the one that is fetched and put there.
    abbrev pub Known : PhJob → Users → Users → Quota → Type 0
    Known job users known user_quota =
        ((lookup job.spec.user_name users ≡ some user_quota) × (known ≡ users))
        ⊎ ((lookup job.spec.user_name users ≡ none)
            × (get_user_remaining_quota_in_group tables answers job ≡ ok user_quota)
            × (known ≡ insert job.spec.user_name user_quota users))

    pub record Visited (job : PhJob) (users : Users) (group : Quota) (users' : Users)
        (group' : Quota) : Type 0 where
      pub requested : Quota
      pub asks : requested_quota tables answers Site.ordering job ≡ ok requested
      pub known_users : Users
      pub user_quota : Quota
      pub known : Known job users known_users user_quota
      pub granted_to :
          Granted known_users job.spec.user_name user_quota group requested users' group'

    visit_user-grant :
        (job : PhJob) (users : Users) (group requested : Quota) {users' : Users} {group' : Quota}
        → requested_quota tables answers Site.ordering job ≡ ok requested
        → visit_user tables answers job users group requested ≡ grant users' group'
        → Visited job users group users' group'
    unfolding visit_user
    visit_user-grant job users group requested asks e =
        elim (Option-cases (lookup job.spec.user_name users)) [
          | inr (user_quota, found) ↦ record {
            requested = requested;
            asks = asks;
            known_users = users;
            user_quota = user_quota;
            known = inl (found, refl);
            granted_to =
                decide-Granted job.spec.user_name users user_quota group requested
                  (rw (found, visit_user) at e);
          }
          | inl missing ↦
              elim (Result-cases (get_user_remaining_quota_in_group tables answers job)) [
                | inl (x, failed) ↦ absurd (ground arith)
                | inr (user_quota, fetched) ↦ record {
                  requested = requested;
                  asks = asks;
                  known_users = insert job.spec.user_name user_quota users;
                  user_quota = user_quota;
                  known = inr (missing, fetched, refl);
                  granted_to =
                      decide-Granted job.spec.user_name _ user_quota group requested
                        (rw (missing, fetched, visit_user) at e);
                }
              ]
        ]

    pub visit-grant :
        (job : PhJob) (users : Users) (group : Quota) {users' : Users} {group' : Quota}
        → visit tables answers job users group ≡ grant users' group'
        → Visited job users group users' group'
    unfolding visit
    visit-grant job users group e =
        elim (Result-cases (requested_quota tables answers Site.ordering job)) [
          | inl (x, failed) ↦ absurd (ground arith)
          | inr (requested, asks) ↦
              visit_user-grant job users group requested asks (rw (asks, visit) at e)
        ]
