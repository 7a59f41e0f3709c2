-- ===== src/Quota/Validation.antt =====
-- What validation means in exact amounts.
use primehub_controller.Prelude.{true, false, ◌≡◌, refl, ◌↔◌, Option, none, some, arith, ◌≤ℤ◌}
use primehub_controller.Numeric.{Numeric}
use primehub_controller.Quota.{Quota, lacks, validate_resource}

module _ ⦃api : Numeric⦄ where
  open api use {Quantity, nanos, cmp-lt}

  -- An unlimited quota holds every request, and a request that names no amount fits every quota.
  abbrev pub Within : Option Quantity → Option Quantity → Type 0
  Within (some requested) (some limit) = nanos requested ≤ℤ nanos limit
  Within (some requested) none = Unit
  Within none limit = Unit

  pub record Fits (requested quota : Quota) : Type 0 where
    pub cpu : Within requested.cpu quota.cpu
    pub gpu : Within requested.gpu quota.gpu
    pub memory : Within requested.memory quota.memory

  pub lacks_iff :
      (limit requested : Option Quantity) → (lacks limit requested ≡ false) ↔ Within requested limit
  unfolding lacks
  lacks_iff (some l) (some r) = ground (arith, cmp-lt l r)
  lacks_iff (some l) none = ((λ _. tt), λ _. refl)
  lacks_iff none (some r) = ((λ _. tt), λ _. refl)
  lacks_iff none none = ((λ _. tt), λ _. refl)

  validate_resource-Fits :
      (requested quota : Quota) → validate_resource requested quota ≡ true → Fits requested quota
  unfolding validate_resource
  validate_resource-Fits requested quota valid = record {
    cpu = (lacks_iff quota.cpu requested.cpu).0 (ground arith);
    gpu = (lacks_iff quota.gpu requested.gpu).0 (ground arith);
    memory = (lacks_iff quota.memory requested.memory).0 (ground arith);
  }

  Fits-validate_resource :
      (requested quota : Quota) → Fits requested quota → validate_resource requested quota ≡ true
  unfolding validate_resource
  Fits-validate_resource requested quota fits = rw (
    (lacks_iff quota.cpu requested.cpu).1 fits.cpu,
    (lacks_iff quota.gpu requested.gpu).1 fits.gpu,
    (lacks_iff quota.memory requested.memory).1 fits.memory,
  )

  -- A request is valid exactly if each amount that it names is at most the amount that the quota
  -- allows, where the quota names one.
  pub validate_resource_iff :
      (requested quota : Quota) → (validate_resource requested quota ≡ true) ↔ Fits requested quota
  validate_resource_iff requested quota =
      (validate_resource-Fits requested quota, Fits-validate_resource requested quota)
