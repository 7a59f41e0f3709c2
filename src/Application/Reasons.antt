-- ===== src/Application/Reasons.antt =====
-- The reasons that diagnosisStatus of an application finds.
use mathlib.Core.Bool.{false≢true}
use mathlib.Core.Option.{none-ne-some, some-injective}
use text.Mathlib.TextEquality.{eq_iff}
use primehub_controller.Prelude.{
  Bool-cases, List, [], ◌∷◌, Option, String, false, some, none, ◌≡◌, ◌⊎◌, refl, sym, ap, ◌∙◌, inl,
  inr, str_eq, if◌then◌else◌,
}
use primehub_controller.GoText.{is_empty}
use primehub_controller.Deployment.PodStates.{Condition, ContainerStatus, Terminated, Waiting}
use primehub_controller.Application.Status.{
  AppDeploymentStatus, AppPod, last_reason, ended_reason, waiting_reason, container_reason,
  pods_reason, diagnosis_status,
}

-- Some entry of a list.
abbrev pub AnyOf {ℓ} : {A : Type ℓ} → (A → Type 0) → List A → Type 0
AnyOf P [] = ⊥
AnyOf P (x ∷ xs) = P x ⊎ AnyOf P xs

-- The container waits with a message, or it ended with a reason.
abbrev pub ContainerFails : ContainerStatus → Type 0
ContainerFails container =
    ((waiting : Waiting) × (container.state.waiting ≡ some waiting)
      × (is_empty waiting.message ≡ false))
    ⊎ ((terminated : Terminated) × (container.state.terminated ≡ some terminated)
        × (is_empty terminated.reason ≡ false))

abbrev pub FirstFails : List ContainerStatus → Type 0
FirstFails [] = ⊥
FirstFails (first ∷ others) = ContainerFails first

abbrev pub HasCause : String → Condition → Type 0
HasCause reason condition = condition.reason ≡ reason

-- A pod shows a reason: it cannot be scheduled, or its first container failed.
abbrev pub PodFails : AppPod → Type 0
PodFails pod = AnyOf (HasCause "Unschedulable") pod.conditions ⊎ FirstFails pod.container_statuses

-- The deployment or one of its pods shows a reason.
abbrev pub Fails : AppDeploymentStatus → List AppPod → Type 0
Fails status pods = AnyOf (HasCause "FailedCreate") status.conditions ⊎ AnyOf PodFails pods

-- A finding is there exactly where there is something to be found.
pub data Reports (P : Type 0) : Option String → Type 0 where
  quiet : ¬ P → Reports P none
  loud : (message : String) → P → Reports P (some message)

Reports-iff :
    {P Q : Type 0} {found : Option String} → (P → Q) → (Q → P) → Reports P found → Reports Q found
Reports-iff f g (quiet lacks) = quiet (λ q. lacks (g q))
Reports-iff f g (loud message p) = loud message (f p)

Reports-none :
    {P R : Type 0} {found : Option String} → ¬ R → Reports P found → Reports (P ⊎ R) found
Reports-none other (quiet lacks) = quiet (λ q. elim q [ inl p ↦ lacks p | inr r ↦ other r ])
Reports-none other (loud message p) = loud message (inl p)

reassociate : {P Q R : Type 0} → (P ⊎ Q) ⊎ R → P ⊎ (Q ⊎ R)
reassociate (inl (inl p)) = inl p
reassociate (inl (inr q)) = inr (inl q)
reassociate (inr r) = inr (inr r)

associate : {P Q R : Type 0} → P ⊎ (Q ⊎ R) → (P ⊎ Q) ⊎ R
associate (inl p) = inl (inl p)
associate (inr (inl q)) = inl (inr q)
associate (inr (inr r)) = inr r

Reports-associate :
    {P Q R : Type 0} {found : Option String}
    → Reports ((P ⊎ Q) ⊎ R) found
    → Reports (P ⊎ (Q ⊎ R)) found
Reports-associate h = Reports-iff reassociate associate h

condition-Reports :
    (P : Type 0) (reason message : String) (condition : Condition) (found : Option String)
    → Reports P found
    → Reports
        (P ⊎ HasCause reason condition)
        (if str_eq condition.reason reason then some message else found)
condition-Reports P reason message condition found h =
    elim (Bool-cases (str_eq condition.reason reason)) [
      | inl same ↦ rw same (loud message (inr ((eq_iff condition.reason reason).0 same)))
      | inr other ↦
          rw other
            (Reports-none (λ e. false≢true (sym other ∙ (eq_iff condition.reason reason).1 e)) h)
    ]

last_reason-Reports :
    (P : Type 0) (reason : String) (conditions : List Condition) (found : Option String)
    → Reports P found
    → Reports (P ⊎ AnyOf (HasCause reason) conditions) (last_reason reason conditions found)
unfolding last_reason
last_reason-Reports P reason [] found h = Reports-none (λ x. x) h
last_reason-Reports P reason (condition ∷ conditions) found h = Reports-associate (
    last_reason-Reports (P ⊎ HasCause reason condition) reason conditions _
      (condition-Reports P reason _ condition found h))

ended_reason-Reports :
    (P : Type 0) (terminated : Option Terminated) (found : Option String)
    → Reports P found
    → Reports
        (P ⊎ ((t : Terminated) × (terminated ≡ some t) × (is_empty t.reason ≡ false)))
        (ended_reason terminated found)
ended_reason-Reports P none found h = Reports-none (λ (t, e, _). none-ne-some t e) h
ended_reason-Reports P (some t) found h = elim (Bool-cases (is_empty t.reason)) [
  | inl empty ↦ rw empty (
      Reports-none
        (λ (u, e, filled). false≢true (
          sym filled
          ∙ (ap (λ (t' : Terminated). is_empty t'.reason) (sym (some-injective t u e)) ∙ empty)))
        h)
  | inr filled ↦ rw filled (loud _ (inr (t, refl, filled)))
]

waiting_reason-Reports :
    (P : Type 0) (waiting : Option Waiting) (terminated : Option Terminated) (found : Option String)
    → Reports P found
    → Reports
        (P
          ⊎ (((w : Waiting) × (waiting ≡ some w) × (is_empty w.message ≡ false))
              ⊎ ((t : Terminated) × (terminated ≡ some t) × (is_empty t.reason ≡ false))))
        (waiting_reason waiting terminated found)
waiting_reason-Reports P none terminated found h =
    Reports-iff (λ q. elim q [ inl p ↦ inl p | inr r ↦ inr (inr r) ])
      (λ q. elim q [
        | inl p ↦ inl p
        | inr (inl (w, e, _)) ↦ absurd (none-ne-some w e)
        | inr (inr r) ↦ inr r
      ])
      (ended_reason-Reports P terminated found h)
waiting_reason-Reports P (some w) terminated found h = elim (Bool-cases (is_empty w.message)) [
  | inl empty ↦ rw empty (
      Reports-iff (λ q. elim q [ inl p ↦ inl p | inr r ↦ inr (inr r) ])
        (λ q. elim q [
          | inl p ↦ inl p
          | inr (inl (v, e, filled)) ↦ absurd (
              false≢true (
                sym filled
                ∙ (ap (λ (w' : Waiting). is_empty w'.message) (sym (some-injective w v e))
                    ∙ empty)))
          | inr (inr r) ↦ inr r
        ])
        (ended_reason-Reports P terminated found h))
  | inr filled ↦ rw filled (loud _ (inr (inl (w, refl, filled))))
]

container_reason-Reports :
    (P : Type 0) (statuses : List ContainerStatus) (found : Option String)
    → Reports P found
    → Reports (P ⊎ FirstFails statuses) (container_reason statuses found)
container_reason-Reports P [] found h = Reports-none (λ x. x) h
container_reason-Reports P (first ∷ others) found h =
    waiting_reason-Reports P first.state.waiting first.state.terminated found h

pods_reason-Reports :
    (P : Type 0) (pods : List AppPod) (found : Option String)
    → Reports P found
    → Reports (P ⊎ AnyOf PodFails pods) (pods_reason pods found)
unfolding pods_reason
pods_reason-Reports P [] found h = Reports-none (λ x. x) h
pods_reason-Reports P (pod ∷ pods) found h =
    let conditions = last_reason-Reports P "Unschedulable" pod.conditions found h in
    let containers = container_reason-Reports _ pod.container_statuses _ conditions in
    Reports-associate (pods_reason-Reports (P ⊎ PodFails pod) pods _ (Reports-associate containers))

pub diagnosis_status-Reports :
    (status : AppDeploymentStatus) (pods : List AppPod)
    → Reports (Fails status pods) (diagnosis_status status pods)
unfolding diagnosis_status
diagnosis_status-Reports status pods =
    let nothing = last_reason-Reports ⊥ "FailedCreate" status.conditions none (quiet (λ x. x)) in
    pods_reason-Reports _ pods _
      (Reports-iff (λ q. elim q [ inl x ↦ absurd x | inr r ↦ r ]) (λ r. inr r) nothing)
