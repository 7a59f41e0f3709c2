-- ===== src/Deployment/Phases.antt =====
-- The phase that updateStatus sets, and the history.
use mathlib.Core.Bool.{false≢true}
use mathlib.Core.Option.{none-ne-some, some-injective}
use primehub_controller.Prelude.{
  sym, ◌∙◌, subst, pos, Bool-cases, length-take-le, Bool, List, Option, String, ℕ, ℤ, [], ◌∷◌,
  false, true, some, none, ◌≡◌, ◌≢◌, zero, suc, eq_of_parts, ◌⊎◌, refl, inl, inr, arith,
  if◌then◌else◌, ltb, length, take, ◌≤◌,
}
use primehub_controller.Deployment.{
  Codec, PhDeploymentSpec, PhDeploymentStatus, DeploymentPhase, no_phase, deploying, deployed,
  stopped, stopping, failed, History,
}
use primehub_controller.Deployment.PodStates.{FailedPodStatus}
use primehub_controller.Deployment.Status.{
  reported_status, Observed, is_complete, is_up, update_status, started_status, int_eq,
}
use primehub_controller.Deployment.Recorded.{update_history, with_entry, trimmed}

-- Some of the pods are available or updated.
abbrev pub HasPods : Option Observed → Type 0
HasPods none = ⊥
HasPods (some seen) =
    (seen.status.available_replicas ≢ pos 0) ⊎ (seen.status.updated_replicas ≢ pos 0)

-- The number of available pods, which is none for a missing deployment.
abbrev pub IsCount : Option Observed → ℤ → Type 0
IsCount none n = n ≡ pos 0
IsCount (some seen) n = n ≡ seen.status.available_replicas

-- As many pods are available, and as many are updated, as there are replicas.
abbrev pub IsFull : Observed → Type 0
IsFull seen =
    (seen.status.available_replicas ≡ seen.replicas)
    × (seen.status.updated_replicas ≡ seen.replicas)

-- What a status of each phase says of the deployment.
unfoldable pub Means :
    PhDeploymentSpec
    → Option Observed
    → Option String
    → PhDeploymentStatus
    → DeploymentPhase
    → Type 0
Means spec deployment error status no_phase = ⊥
Means spec deployment error status stopped =
    (spec.stop ≡ true) × (¬ HasPods deployment) × (status.available_replicas ≡ pos 0)
Means spec deployment error status stopping =
    (spec.stop ≡ true) × HasPods deployment × (status.available_replicas ≡ pos 0)
Means spec deployment error status failed =
    (spec.stop ≡ false)
    × (error ≡ some status.message)
    × IsCount deployment status.available_replicas
Means spec deployment error status deployed =
    (spec.stop ≡ false)
    × (error ≡ none)
    × (seen : Observed) × (deployment ≡ some seen)
    × IsFull seen
    × (status.available_replicas ≡ seen.replicas)
Means spec deployment error status deploying =
    (spec.stop ≡ false)
    × (error ≡ none)
    × ((seen : Observed) → deployment ≡ some seen → ¬ IsFull seen)
    × IsCount deployment status.available_replicas

pub if-Means :
    {A : Type 0} (b : Bool) (M : A → Type 0) (x y : A)
    → (b ≡ true → M x)
    → (b ≡ false → M y)
    → M (if b then x else y)
if-Means true M x y f g = f refl
if-Means false M x y f g = g refl

pub int_eq-eq : (a b : ℤ) → int_eq a b ≡ true → a ≡ b
int_eq-eq a b e = eq_of_parts a b (ground arith)

int_eq_refl : (a : ℤ) → int_eq a a ≡ true
int_eq_refl a = ground arith

pub int_eq-ne : (a b : ℤ) → int_eq a b ≡ false → a ≢ b
int_eq-ne a b e same = false≢true (sym e ∙ subst (λ x. int_eq a x ≡ true) same (int_eq_refl a))

is_up-HasPods : (deployment : Option Observed) → is_up deployment ≡ true → HasPods deployment
is_up-HasPods none e = absurd (false≢true e)
is_up-HasPods (some seen) e = elim (Bool-cases (int_eq seen.status.available_replicas (pos 0))) [
  | inl empty ↦ inr (int_eq-ne seen.status.updated_replicas (pos 0) (ground (arith, empty)))
  | inr filled ↦ inl (int_eq-ne seen.status.available_replicas (pos 0) filled)
]

is_up-not_HasPods : (deployment : Option Observed) → is_up deployment ≡ false → ¬ HasPods deployment
is_up-not_HasPods none e = λ h. h
is_up-not_HasPods (some seen) e = λ h. elim h [
  | inl available ↦ available (int_eq-eq seen.status.available_replicas (pos 0) (ground (arith, e)))
  | inr updated ↦ updated (int_eq-eq seen.status.updated_replicas (pos 0) (ground (arith, e)))
]

is_complete-IsFull : (seen : Observed) → is_complete seen ≡ true → IsFull seen
is_complete-IsFull seen e = (
  int_eq-eq seen.status.available_replicas seen.replicas (ground (arith, e)),
  int_eq-eq seen.status.updated_replicas seen.replicas (ground (arith, e)),
)

is_complete-not_IsFull : (seen : Observed) → is_complete seen ≡ false → ¬ IsFull seen
is_complete-not_IsFull seen e = λ (available, updated).
    let first =
      subst (λ n. int_eq n seen.replicas ≡ true) (sym available) (int_eq_refl seen.replicas) in
    let second =
      subst (λ n. int_eq n seen.replicas ≡ true) (sym updated) (int_eq_refl seen.replicas) in
    false≢true (sym e ∙ rw first second)

module _ (show : ℤ → String) (spec : PhDeploymentSpec) where
  abbrev Says : Option Observed → Option String → PhDeploymentStatus → Type 0
  Says deployment error status = Means spec deployment error status status.phase

  started_status-Says :
      (deployment : Option Observed) (failed_pods : List FailedPodStatus)
      (status : PhDeploymentStatus)
      → spec.stop ≡ false
      → Says deployment none (started_status show spec deployment failed_pods status)
  unfolding started_status Means
  started_status-Says none failed_pods status on =
      (on, refl, (λ seen e. absurd (none-ne-some seen e)), refl)
  started_status-Says (some seen) failed_pods status on =
      if-Means (is_complete seen) (Says (some seen) none) _ _
        (λ complete.
          let full = is_complete-IsFull seen complete in (on, refl, seen, refl, full, full.0))
        (λ partial. (
          on,
          refl,
          (λ other e full.
              is_complete-not_IsFull seen partial
                (subst (λ (o : Observed). IsFull o) (sym (some-injective seen other e)) full)),
          refl,
        ))

  reported-Says :
      (deployment : Option Observed) (error : Option String) (failed_pods : List FailedPodStatus)
      (status : PhDeploymentStatus)
      → spec.stop ≡ false
      → Says deployment error (reported_status show spec deployment error failed_pods status)
  unfolding Means
  reported-Says deployment none failed_pods status on =
      started_status-Says deployment failed_pods status on
  reported-Says none (some reason) failed_pods status on = (on, refl, refl)
  reported-Says (some seen) (some reason) failed_pods status on = (on, refl, refl)

  -- The status that updateStatus sets says what its phase means. Stopped and Stopping are for a
  -- PhDeployment that is to stop, whose deployment has no available and no updated pods, or has some, and
  -- count no available pods. Failed is for another that has a configuration error, with its reason as the
  -- message; Deployed for one without, whose deployment has as many available and as many updated pods as
  -- replicas; and Deploying for one whose deployment is missing or has not. These count the available
  -- pods of the deployment.
  pub update_status-Means :
      (deployment : Option Observed) (error : Option String) (failed_pods : List FailedPodStatus)
      (status : PhDeploymentStatus)
      → Means spec deployment error
          (update_status show spec deployment error failed_pods status)
          (update_status show spec deployment error failed_pods status).phase
  unfolding update_status Means
  update_status-Means deployment error failed_pods status =
      if-Means spec.stop (Says deployment error) _ _
        (λ off.
          if-Means (is_up deployment) (Says deployment error) _ _
            (λ up. (off, is_up-HasPods deployment up, refl))
            (λ down. (off, is_up-not_HasPods deployment down, refl)))
        (λ on. reported-Says deployment error failed_pods status on)

-- Two neighbours of a history are of different specifications.
abbrev pub Alternates : List History → Type 0
Alternates [] = Unit
Alternates (entry ∷ []) = Unit
Alternates (entry ∷ next ∷ older) = (entry.spec ≢ next.spec) × Alternates (next ∷ older)

abbrev pub IsHistory : List History → Type 0
IsHistory history = (length history ≤ 32) × Alternates history

abbrev pub BeginsWith : PhDeploymentSpec → List History → Type 0
BeginsWith spec [] = ⊥
BeginsWith spec (entry ∷ older) = entry.spec ≡ spec

take-Alternates :
    (n : ℕ) (history : List History) → Alternates history → Alternates (take n history)
take-Alternates zero history h = tt
take-Alternates (suc n) [] h = tt
take-Alternates (suc zero) (entry ∷ []) h = tt
take-Alternates (suc (suc n)) (entry ∷ []) h = tt
take-Alternates (suc zero) (entry ∷ next ∷ older) h = tt
take-Alternates (suc (suc n)) (entry ∷ next ∷ older) h =
    (h.0, take-Alternates (suc n) (next ∷ older) h.1)

take-BeginsWith :
    (spec : PhDeploymentSpec) (n : ℕ) (history : List History)
    → BeginsWith spec history
    → BeginsWith spec (take (suc n) history)
take-BeginsWith spec n [] h = h
take-BeginsWith spec n (entry ∷ older) h = h

module _ (codec : Codec) (spec : PhDeploymentSpec) (now : ℤ) where
  abbrev IsFit : List History → Type 0
  IsFit history = (length history ≤ 33) × Alternates history × BeginsWith spec history

  with_entry-IsFit :
      (history : List History) → IsHistory history → IsFit (with_entry codec spec now history)
  with_entry-IsFit [] h = (omega arith, tt, refl)
  with_entry-IsFit (latest ∷ older) h =
      if-Means (codec.deep_equal spec latest.spec) IsFit _ _
        (λ same. (ground (arith, h.0), h.1, sym ((codec.deep_equal_iff spec latest.spec).0 same)))
        (λ other. (
          ground (arith, h.0),
          (λ e. false≢true (sym other ∙ (codec.deep_equal_iff spec latest.spec).1 e), h.1),
          refl,
        ))

  trimmed-IsHistory :
      (history : List History)
      → IsFit history
      → IsHistory (trimmed history) × BeginsWith spec (trimmed history)
  trimmed-IsHistory history h =
      if-Means (ltb 32 (length history)) (λ xs. IsHistory xs × BeginsWith spec xs) _ _
        (λ long.
          let is_33 : length history ≡ suc 32 = ground (arith, h.0) in
          rw is_33 (
            (omega (arith, length-take-le 32 history), take-Alternates 32 history h.1),
            take-BeginsWith spec 31 history h.2,
          ))
        (λ short. ((ground arith, h.1), h.2))

  -- updateHistory keeps a history to at most 32 entries of which no two neighbours are of the same
  -- specification, and begins it with an entry of the specification that it is given.
  pub update_history-IsHistory :
      (history : List History)
      → IsHistory history
      → IsHistory (update_history codec spec now history)
        × BeginsWith spec (update_history codec spec now history)
  unfolding update_history
  update_history-IsHistory history h = trimmed-IsHistory _ (with_entry-IsFit history h)
