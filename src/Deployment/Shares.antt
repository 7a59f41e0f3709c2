-- ===== src/Deployment/Shares.antt =====
-- How the resources of an instance type are shared between the containers of a deployment.
use mathlib.Core.Bool.{false≢true}
use mathlib.Core.Option.{none-ne-some, some-injective}
use text.Mathlib.TextEquality.{eq_iff}
use primehub_controller.Prelude.{
  String, Bool, true, false, [], ◌∷◌, some, ℤ, pos, ◌≡◌, ◌⊎◌, ◌↔◌, refl, sym, ap, subst, ◌∙◌,
  Bool-cases, Option-cases, inl, inr, ltb_ℤ, ◌-ℤ◌, ◌+ℤ◌, ◌≤ℤ◌, int_laws, ltb_ℤ→le, lookup,
  lookup-put_other, str_eq, ◌||◌, arith,
}
use primehub_controller.Numeric.{Numeric, ResourceList}
use primehub_controller.GoText.{Casing}
use primehub_controller.GoText.Search.{has_prefix}
use primehub_controller.Spawn.{Container}
use primehub_controller.Deployment.ModelVolumes.{Settings}
use primehub_controller.Deployment.Build.{
  Tools, engine_share, engine_cpu, engine_memory, model_cpu, model_memory, adjusted_engine,
  adjusted_model, get_gpu_from_limits, first_gpu, with_gpu,
}

-- How the engine and the model container share a total: the engine has a tenth or the least amount,
-- whichever is more, and the model container the rest.
abbrev pub AreShares : (ℤ → ℤ) → ℤ → ℤ → ℤ → ℤ → Type 0
AreShares tenth least total engine model =
    (least ≤ℤ engine)
    × (tenth total ≤ℤ engine)
    × ((engine ≡ least) ⊎ (engine ≡ tenth total))
    × (engine +ℤ model ≡ total)
    × ((pos 0 ≤ℤ model) ↔ (least ≤ℤ total))

engine_share-AreShares :
    (tenth : ℤ → ℤ) (least n : ℤ)
    → tenth n ≤ℤ n
    → AreShares tenth least n (engine_share tenth least n) (n -ℤ engine_share tenth least n)
unfolding engine_share
engine_share-AreShares tenth least n h = elim (Bool-cases (ltb_ℤ (tenth n) least)) [
  | inl small ↦ rw small (
    omega int_laws,
    ground (arith, small),
    inl refl,
    omega int_laws,
    (λ p. omega int_laws, λ p. omega int_laws),
  )
  | inr large ↦
      let enough = ltb_ℤ→le (tenth n) least large in
      rw large (
        enough,
        omega int_laws,
        inr refl,
        omega int_laws,
        (λ p. omega int_laws, λ p. omega int_laws),
      )
]

is_gpu : String → Bool
is_gpu name =
    (str_eq name "nvidia.com/gpu" || str_eq name "amd.com/gpu") || has_prefix name "gpu.intel.com/"

first_gpu-is_gpu :
    {Q : Type 0} (limits : ResourceList Q) (name : String) (quantity : Q)
    → first_gpu limits ≡ some (name, quantity)
    → has_prefix name "gpu.intel.com/" ≡ true
first_gpu-is_gpu [] name quantity e = absurd (none-ne-some _ e)
first_gpu-is_gpu (entry ∷ limits) name quantity e =
    elim (Bool-cases (has_prefix entry.0 "gpu.intel.com/")) [
      | inl found ↦
          let same = some-injective entry (name, quantity) (rw found at e) in
          subst (λ (x : String × _). has_prefix x.0 "gpu.intel.com/" ≡ true) same found
      | inr missed ↦ first_gpu-is_gpu limits name quantity (rw missed at e)
    ]

get_gpu_from_limits-is_gpu :
    {Q : Type 0} (limits : ResourceList Q) (name : String) (quantity : Q)
    → get_gpu_from_limits limits ≡ some (name, quantity)
    → is_gpu name ≡ true
unfolding get_gpu_from_limits is_gpu
get_gpu_from_limits-is_gpu limits name quantity e =
    elim (Option-cases (lookup "nvidia.com/gpu" limits)) [
      | inr (found, nvidia) ↦
          let same = some-injective _ (name, quantity) (rw (nvidia, get_gpu_from_limits) at e) in
          subst (λ (x : String × _). is_gpu x.0 ≡ true) same refl
      | inl none_of_nvidia ↦ elim (Option-cases (lookup "amd.com/gpu" limits)) [
        | inr (found, amd) ↦
            let same =
              some-injective _ (name, quantity)
                (rw (none_of_nvidia, amd, get_gpu_from_limits) at e) in
            subst (λ (x : String × _). is_gpu x.0 ≡ true) same refl
        | inl none_of_amd ↦
            let last =
              first_gpu-is_gpu limits name quantity
                (rw (none_of_nvidia, none_of_amd, get_gpu_from_limits) at e) in
            ground (arith, last)
      ]
    ]

module _ ⦃api : Numeric⦄ (casing : Casing) (settings : Settings) (tools : Tools api.Quantity) where
  open api use {Quantity}

  -- The extra resource of the model container does not hide another one.
  with_gpu-lookup :
      (limits amounts : ResourceList Quantity) (name : String)
      → is_gpu name ≡ false
      → lookup name (with_gpu casing settings tools (get_gpu_from_limits limits) amounts)
        ≡ lookup name amounts
  with_gpu-lookup limits amounts name plain = elim (Option-cases (get_gpu_from_limits limits)) [
    | inl missing ↦ rw missing refl
    | inr ((gpu, quantity), found) ↦
        let is = get_gpu_from_limits-is_gpu limits gpu quantity found in
        rw found (
          lookup-put_other name gpu quantity amounts (elim (Bool-cases (str_eq gpu name)) [
            | inr other ↦ other
            | inl same ↦
                absurd (false≢true (sym plain ∙ (ap is_gpu (sym ((eq_iff gpu name).0 same)) ∙ is)))
          ]))
  ]

  -- The container asks for this processor time, in thousandths, and this memory, and is limited to them.
  abbrev pub Has : Container Quantity → ℤ → ℤ → Type 0
  Has container cpu memory =
      (lookup "cpu" container.limits ≡ some (api.of_milli cpu))
      × (lookup "memory" container.limits ≡ some (api.of_int memory))
      × (container.requests ≡ container.limits)

  -- Where a tenth of a number that is not negative is not larger, and the limits of the instance type are
  -- not negative, adjustResourcesToFitConstraint leaves the engine and the model container with requests
  -- that are their limits, and that share the processor time and the memory of the instance type without
  -- a rest: the engine has a tenth, but at least 300m of processor time and 250 * 1024 * 1024 of memory,
  -- and the model container what is left, which is negative exactly if the limit of the instance type is
  -- less than that.
  pub adjusted_model-shares :
      ((n : ℤ) → pos 0 ≤ℤ n → tools.tenth n ≤ℤ n)
      → (engine model : Container Quantity)
      → pos 0 ≤ℤ tools.milli_value (api.limit_cpu model.limits)
      → pos 0 ≤ℤ tools.value (api.limit_memory model.limits)
      → (cpu : ℤ) × (rest_cpu : ℤ) × (memory : ℤ) × (rest_memory : ℤ) × Has
          (adjusted_engine casing settings tools engine model)
          cpu
          memory
        × Has (adjusted_model casing settings tools model) rest_cpu rest_memory
        × AreShares tools.tenth
            (pos 300)
            (tools.milli_value (api.limit_cpu model.limits))
            cpu
            rest_cpu
        × AreShares tools.tenth
            (pos 262144000)
            (tools.value (api.limit_memory model.limits))
            memory
            rest_memory
  unfolding adjusted_engine adjusted_model model_cpu model_memory engine_cpu engine_memory is_gpu
      lookup has_prefix
  adjusted_model-shares tenth-le engine model cpu memory = (
    engine_cpu casing settings tools model,
    model_cpu casing settings tools model,
    engine_memory casing settings tools model,
    model_memory casing settings tools model,
    (refl, refl, refl),
    (with_gpu-lookup model.limits _ "cpu" refl, with_gpu-lookup model.limits _ "memory" refl, refl),
    engine_share-AreShares tools.tenth (pos 300) _ (tenth-le _ cpu),
    engine_share-AreShares tools.tenth (pos 262144000) _ (tenth-le _ memory),
  )
