-- ===== src/Quota/Usage/Totals.antt =====
-- The usage as sums over the pods that count, and what remains of a quota.
use text.Mathlib.Text.{starts_with}
use text.Mathlib.TextPositions.{starts_with-append}
use primehub_controller.Prelude.{
  String, Bool-cases, +ℤ_chain, -ℤ_restore, false, ◌≡◌, refl, sym, ◌∙◌, Option, none, some, List,
  [], ◌∷◌, ℤ, pos, ◌+ℤ◌, ok, inl, inr, +ℤ_zero, zero_+ℤ, keep, true,
}
use primehub_controller.Numeric.{Numeric, ResourceList}
use primehub_controller.Kube.{Pod}
use primehub_controller.Escapism.{Unicode, escape_to_dns_label, escape_to_primehub_label}
use primehub_controller.Quota.{Quota, DtoGroup, group_resource_quota}
use primehub_controller.Quota.Usage.{
  UsageSum, counts, get_gpu_from_limits, add_gpu, add_container, add_containers, add_pods, no_usage,
  ListPods, sub_used, remaining, user_label, current_group_resource_usage, current_resource_usage,
  calculate_group_remaining_resource_quota,
}

starts_with-escape_to_primehub_label :
    (tables : Unicode) (name : String)
    → starts_with (escape_to_primehub_label tables name) "escaped-" ≡ true
unfolding escape_to_primehub_label
starts_with-escape_to_primehub_label tables name =
    starts_with-append "escaped-" (escape_to_dns_label tables name)

-- A user whose name is the label of another name is counted together with the user of that name.
pub user_label-collides :
    (tables : Unicode) (name : String)
    → starts_with name "escaped-" ≡ false
    → user_label tables (escape_to_primehub_label tables name) ≡ user_label tables name
unfolding user_label
user_label-collides tables name plain = rw (plain, starts_with-escape_to_primehub_label tables name)

module _ ⦃api : Numeric⦄ where
  open api use {
    Quantity, Float, nanos, nanos-add, nanos-sub, nanos-zero_quantity, limit_cpu, limit_memory,
  }

  -- The GPUs that the limits of a container name.
  abbrev pub gpu_amount : Option Quantity → ℤ
  gpu_amount (some q) = nanos q
  gpu_amount none = pos 0

  -- The sum of an amount over the containers of a list of pods.
  module _ (amount : ResourceList Quantity → ℤ) where
    pub over_containers : List (ResourceList Quantity) → ℤ
    over_containers [] = pos 0
    over_containers (limits ∷ containers) = amount limits +ℤ over_containers containers

    pub over_pods : List (Pod Quantity) → ℤ
    over_pods [] = pos 0
    over_pods (pod ∷ pods) = over_containers pod.limits +ℤ over_pods pods

  abbrev pub cpu_of : ResourceList Quantity → ℤ
  cpu_of limits = nanos (limit_cpu limits)

  abbrev pub gpu_of : ResourceList Quantity → ℤ
  gpu_of limits = gpu_amount (get_gpu_from_limits limits)

  abbrev pub memory_of : ResourceList Quantity → ℤ
  memory_of limits = nanos (limit_memory limits)

  nanos-add_gpu :
      (total : Quantity) (o : Option Quantity)
      → nanos (add_gpu total o) ≡ nanos total +ℤ gpu_amount o
  unfolding add_gpu
  nanos-add_gpu total (some q) = nanos-add total q
  nanos-add_gpu total none = sym (+ℤ_zero (nanos total))

  pub record Sums (before after : UsageSum) (cpu gpu memory : ℤ) : Type 0 where
    pub cpu_sum : nanos after.cpu ≡ nanos before.cpu +ℤ cpu
    pub gpu_sum : nanos after.gpu ≡ nanos before.gpu +ℤ gpu
    pub memory_sum : nanos after.memory ≡ nanos before.memory +ℤ memory

  Sums-refl : (u : UsageSum) → Sums u u (pos 0) (pos 0) (pos 0)
  Sums-refl u = record {
    cpu_sum = sym (+ℤ_zero _);
    gpu_sum = sym (+ℤ_zero _);
    memory_sum = sym (+ℤ_zero _);
  }

  Sums-trans :
      {u v w : UsageSum} {a b c a' b' c' : ℤ}
      → Sums u v a b c
      → Sums v w a' b' c'
      → Sums u w (a +ℤ a') (b +ℤ b') (c +ℤ c')
  Sums-trans s t = record {
    cpu_sum = +ℤ_chain _ _ _ _ _ s.cpu_sum t.cpu_sum;
    gpu_sum = +ℤ_chain _ _ _ _ _ s.gpu_sum t.gpu_sum;
    memory_sum = +ℤ_chain _ _ _ _ _ s.memory_sum t.memory_sum;
  }

  add_container-Sums :
      (u : UsageSum) (l : ResourceList Quantity)
      → Sums u (add_container u l) (cpu_of l) (gpu_of l) (memory_of l)
  unfolding add_container
  add_container-Sums u l = record {
    cpu_sum = nanos-add u.cpu (limit_cpu l);
    gpu_sum = nanos-add_gpu u.gpu (get_gpu_from_limits l);
    memory_sum = nanos-add u.memory (limit_memory l);
  }

  add_containers-Sums :
      (u : UsageSum) (cs : List (ResourceList Quantity))
      → Sums u
          (add_containers u cs)
          (over_containers cpu_of cs)
          (over_containers gpu_of cs)
          (over_containers memory_of cs)
  unfolding add_containers over_containers
  add_containers-Sums u [] = Sums-refl u
  add_containers-Sums u (l ∷ cs) =
      Sums-trans (add_container-Sums u l) (add_containers-Sums (add_container u l) cs)

  abbrev pub active : List (Pod Quantity) → List (Pod Quantity)
  active = keep (λ pod. counts pod.status.phase)

  add_pods-Sums :
      (u : UsageSum) (pods : List (Pod Quantity))
      → Sums u
          (add_pods u pods)
          (over_pods cpu_of (active pods))
          (over_pods gpu_of (active pods))
          (over_pods memory_of (active pods))
  unfolding add_pods over_pods
  add_pods-Sums u [] = Sums-refl u
  add_pods-Sums u (pod ∷ pods) = elim (Bool-cases (counts pod.status.phase)) [
    | inl counted ↦ rw counted (
        Sums-trans (add_containers-Sums u pod.limits)
          (add_pods-Sums (add_containers u pod.limits) pods))
    | inr other ↦ rw other (add_pods-Sums u pods)
  ]

  -- What a List of the pods gives is, in exact amounts, the sum of the limits over the containers of
  -- the pods that are pending or running, and of no other pod.
  pub current_resource_usage-sums :
      (list_pods : ListPods) (namespace : String) (labels : List (String × String))
      {pods : List (Pod Quantity)}
      → list_pods namespace labels ≡ ok pods
      → (usage : UsageSum) × (current_resource_usage list_pods namespace labels ≡ ok usage)
        × (nanos usage.cpu ≡ over_pods cpu_of (active pods))
        × (nanos usage.gpu ≡ over_pods gpu_of (active pods))
        × (nanos usage.memory ≡ over_pods memory_of (active pods))
  unfolding current_resource_usage
  current_resource_usage-sums list_pods namespace labels {pods} listed =
      let sums = add_pods-Sums no_usage pods in
      (
        add_pods no_usage pods,
        rw listed,
        sums.cpu_sum ∙ from_zero _,
        sums.gpu_sum ∙ from_zero _,
        sums.memory_sum ∙ from_zero _,
      )
    where
      from_zero : (a : ℤ) → nanos api.zero_quantity +ℤ a ≡ a
      from_zero a = rw nanos-zero_quantity (zero_+ℤ a)

  -- What is left of a limit, with what is used, is the limit. Where there is no limit, none is left.
  abbrev pub Left : Option Quantity → ℤ → Option Quantity → Type 0
  Left none used left = left ≡ none
  Left (some limit) used left =
      (rest : Quantity) × (left ≡ some rest) × (nanos rest +ℤ used ≡ nanos limit)

  sub_used-Left :
      (limit : Option Quantity) (used : Quantity) → Left limit (nanos used) (sub_used limit used)
  unfolding sub_used
  sub_used-Left none used = refl
  sub_used-Left (some limit) used =
      (api.sub limit used, refl, rw nanos-sub (-ℤ_restore (nanos limit) (nanos used)))

  -- With a listing of the group's pods and quotas that convert, the group's remaining quota is the
  -- group's project quota less the usage of the pods with the group's label, component by component.
  pub calculate_group_remaining-Left :
      (tables : Unicode) (list_pods : ListPods) (namespace : String) (group : DtoGroup Float)
      {pods : List (Pod Quantity)} {group_quota user_quota : Quota}
      → list_pods namespace (("primehub.io/group", escape_to_primehub_label tables group.name) ∷ [])
        ≡ ok pods
      → group_resource_quota group ≡ ok (group_quota, user_quota)
      → (left : Quota) × (calculate_group_remaining_resource_quota tables list_pods namespace
            (some group)
          ≡ ok left)
        × Left group_quota.cpu (over_pods cpu_of (active pods)) left.cpu
        × Left group_quota.gpu (over_pods gpu_of (active pods)) left.gpu
        × Left group_quota.memory (over_pods memory_of (active pods)) left.memory
  unfolding calculate_group_remaining_resource_quota current_group_resource_usage remaining
  calculate_group_remaining-Left tables list_pods namespace group {group_quota = q} listed
        converted =
      let (usage, found, cpu, gpu, memory) =
        current_resource_usage-sums list_pods namespace
          (("primehub.io/group", escape_to_primehub_label tables group.name) ∷ []) listed in
      (
        remaining q usage,
        rw (found, converted),
        rw cpu at (sub_used-Left q.cpu usage.cpu),
        rw gpu at (sub_used-Left q.gpu usage.gpu),
        rw memory at (sub_used-Left q.memory usage.memory),
      )
