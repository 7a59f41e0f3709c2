-- ===== src/Spawn/Memory.antt =====
-- The memory of a pod next to the memory that is counted against the quotas.
use Prim.Native.String.{◌++◌ as ◌+++◌}
use text.Mathlib.TextLemmas.{cons-append}
use primehub_controller.GoText.{is_empty, last_code}
use primehub_controller.Spawn.Resources.{
  is_unit, apply_node_selector, apply_tolerations, apply_resource_for_instance_type,
  convert_memory_unit,
}
use primehub_controller.Numeric.{Numeric}
use Prim.Native.Char.{Char}
use primehub_controller.Prelude.{
  if◌then◌else◌, ==_iff, sym, none, false, subst, ◌∙◌, ok_injective, ap, bind-ok, ok, ◌==◌,
  Bool-cases, inr, inl, refl, Option-cases, some, ◌≡◌, ℕ, Option, String,
}
use primehub_controller.Quota.{
  memory_limit, Quota, DtoInstanceType, convert_to_resource_quota, instance_type_requested_quota,
}
use primehub_controller.Spawn.{Spawner}

last_code-cons-some :
    (c : Char) (s : String) (d : ℕ) → last_code s ≡ some d → last_code (String.◌∷◌ c s) ≡ some d
unfolding last_code
last_code-cons-some c s d e = rw e refl

last_code-append-i : (s : String) → last_code (s +++ "i") ≡ some 105
unfolding last_code
last_code-append-i String.[] = refl
last_code-append-i (String.◌∷◌ c s) =
    subst (λ text. last_code text ≡ some 105) (sym (cons-append c s "i"))
      (last_code-cons-some c (s +++ "i") 105 (last_code-append-i s))

convert-binary : (value : String) → last_code value ≡ some 105 → convert_memory_unit value ≡ value
unfolding convert_memory_unit
convert-binary value e = rw (e, convert_memory_unit) refl

convert-unit :
    (value : String) (c : ℕ)
    → last_code value ≡ some c
    → c == 105 ≡ false
    → convert_memory_unit value ≡ (if is_unit c then value +++ "i" else value)
unfolding convert_memory_unit
convert-unit value c e other = rw (e, other, convert_memory_unit) refl

convert-empty : (value : String) → last_code value ≡ none → convert_memory_unit value ≡ ""
unfolding convert_memory_unit
convert-empty value e = rw (e, convert_memory_unit) refl

-- ConvertMemoryUnit leaves its own results as they are.
pub convert_memory_unit_idempotent :
    (value : String) → convert_memory_unit (convert_memory_unit value) ≡ convert_memory_unit value
unfolding last_code
convert_memory_unit_idempotent value = elim (Option-cases (last_code value)) [
  | inl empty ↦
      let converted = convert-empty value empty in
      ap convert_memory_unit converted ∙ convert-empty "" refl ∙ sym converted
  | inr (c, ends) ↦ elim (Bool-cases (c == 105)) [
    | inl binary ↦
        let is_i : c ≡ 105 = (==_iff c 105).0 binary in
        ap convert_memory_unit (convert-binary value (ends ∙ ap some is_i))
    | inr other ↦ elim (Bool-cases (is_unit c)) [
      | inl decimal ↦
          let converted : convert_memory_unit value ≡ value +++ "i" =
            rw decimal at (convert-unit value c ends other) in
          ap convert_memory_unit converted
          ∙ convert-binary (value +++ "i") (last_code-append-i value)
          ∙ sym converted
      | inr plain ↦ ap convert_memory_unit (rw plain at (convert-unit value c ends other))
    ]
  ]
]

module _ ⦃api : Numeric⦄ where
  open api use {Quantity, Float}

  abbrev pub or_before : Quantity → Option Quantity → Quantity
  or_before before none = before
  or_before before (some quantity) = quantity

  -- Where the unit of the memory limit of an instance type is not one of G, M and K, the limit that
  -- the pod gets is the one that the admission counts.
  pub apply_resource-requested_quota :
      (spec : DtoInstanceType Float) (spawner : Spawner Quantity) (requested : Quota)
      → instance_type_requested_quota spec ≡ ok requested
      → convert_memory_unit spec.limits_memory ≡ spec.limits_memory
      → (apply_resource_for_instance_type spec spawner).limits_memory
        ≡ or_before spawner.limits_memory requested.memory
  unfolding apply_resource_for_instance_type apply_tolerations apply_node_selector
      instance_type_requested_quota convert_to_resource_quota memory_limit
  apply_resource-requested_quota spec spawner requested e same =
      let (limit, of_limit, built) = bind-ok (memory_limit spec.limits_memory) _ requested e in
      let is_limit = ap (λ quota. quota.memory) (ok_injective built) in
      elim (Bool-cases (is_empty spec.limits_memory)) [
        | inl empty ↦
            let is_none = ok_injective (rw empty at of_limit) in
            rw empty (ap (or_before spawner.limits_memory) (is_none ∙ is_limit))
        | inr given ↦
            let (quantity, parsed, is_some) =
              bind-ok (api.parse_quantity spec.limits_memory) _ limit (rw given at of_limit) in
            rw (given, same, parsed)
              (ap (or_before spawner.limits_memory) (ok_injective is_some ∙ is_limit))
      ]
