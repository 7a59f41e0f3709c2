-- ===== src/Deployment/Status.antt =====
-- ee/controllers/phdeployment_controller.go: updateStatus.
use Prim.Native.String.{◌++◌ as ◌+++◌}
use primehub_controller.Prelude.{
  Bool, List, Option, String, ℤ, [], ◌∷◌, str_eq, ◌&&◌, ◌||◌, not, false, true, some, none,
  if◌then◌else◌, pos, leb_ℤ,
}
use primehub_controller.GoText.Search.{split_second}
use primehub_controller.Deployment.{
  PhDeploymentSpec, PhDeploymentStatus, DeploymentPhase, deploying, deployed, stopped, stopping,
  failed,
}
use primehub_controller.Deployment.PodStates.{FailedPodStatus, ContainerStatus}
use primehub_controller.Deployment.Pods.{explain}

-- appsv1.DeploymentCondition
pub record DeploymentCondition : Type 0 where
  pub kind : String
  pub status : String
  pub reason : String
  pub message : String

-- appsv1.DeploymentStatus
pub record DeploymentStatus : Type 0 where
  pub available_replicas : ℤ
  pub updated_replicas : ℤ
  pub conditions : List DeploymentCondition

-- What updateStatus reads of a deployment; the API server sets a nil replicas to 1.
pub record Observed : Type 0 where
  pub replicas : ℤ
  pub status : DeploymentStatus

-- int32 ==
abbrev pub int_eq : ℤ → ℤ → Bool
int_eq a b = leb_ℤ a b && leb_ℤ b a

-- The condition is that of a pod that an admission webhook denied.
abbrev is_denied : DeploymentCondition → Bool
is_denied condition =
    str_eq condition.kind "ReplicaFailure"
    && str_eq condition.status "True"
    && str_eq condition.reason "FailedCreate"

-- The reason in the first of the conditions that has one.
unfoldable pub denial : List DeploymentCondition → Option String
denial [] = none
denial (condition ∷ conditions) =
    let rest = denial conditions in
    if is_denied condition
    then elim (split_second 20 "denied the request: " condition.message) [
      | none ↦ rest
      | some reason ↦ some reason
    ]
    else rest

abbrev has_mount_failure : List ContainerStatus → Bool
has_mount_failure [] = false
has_mount_failure (status ∷ statuses) =
    str_eq status.name "FailedMount" || has_mount_failure statuses

abbrev has_statuses : List ContainerStatus → Bool
has_statuses [] = false
has_statuses (status ∷ statuses) = true

-- The text before the explanation that a pod gives, of the first pod that gives one.
unfoldable pub pod_failure : List FailedPodStatus → Option String
pod_failure [] = none
pod_failure (found ∷ others) =
    let rest = pod_failure others in
    if found.is_model_storage_init_error && has_statuses found.container_statuses
    then some (
        if has_mount_failure found.container_statuses
        then "Failed because cannot mount NFS server."
        else "Failed because cannot successfully copy the model from the model URI.")
    else if found.is_image_error
    then some "Failed because of wrong image settings."
    else if found.is_terminated
    then some "Failed because of pod is terminated"
    else if found.is_unschedulable
    then some "Certain pods unschedulable."
    else rest

abbrev with_phase :
    DeploymentPhase → String → ℤ → PhDeploymentSpec → PhDeploymentStatus → PhDeploymentStatus
with_phase phase message available spec status = record status {
  phase = phase;
  message = message;
  replicas = spec.predictor.replicas;
  available_replicas = available;
}

-- deployment.Status.AvailableReplicas and UpdatedReplicas are both *deployment.Spec.Replicas.
abbrev pub is_complete : Observed → Bool
is_complete deployment =
    int_eq deployment.status.available_replicas deployment.replicas
    && int_eq deployment.status.updated_replicas deployment.replicas

-- deployment != nil, and some of its pods are available or updated.
abbrev pub is_up : Option Observed → Bool
is_up none = false
is_up (some deployment) =
    not (int_eq deployment.status.available_replicas (pos 0))
    || not (int_eq deployment.status.updated_replicas (pos 0))

abbrev available : Option Observed → ℤ
available none = pos 0
available (some deployment) = deployment.status.available_replicas

module _ (show : ℤ → String) where
  -- The message of a deployment that is not complete.
  unfoldable pub deploying_message : List DeploymentCondition → List FailedPodStatus → String
  deploying_message conditions failed_pods = elim (denial conditions) [
    | some reason ↦ reason
    | none ↦ elim (pod_failure failed_pods) [
      | some failure ↦ failure +++ explain show failed_pods
      | none ↦ "Deployment is being deployed and not available now"
    ]
  ]

  -- updateStatus for a deployment that is not to stop and has no configuration error.
  unfoldable pub started_status :
      PhDeploymentSpec
      → Option Observed
      → List FailedPodStatus
      → PhDeploymentStatus
      → PhDeploymentStatus
  started_status spec none failed_pods status =
      with_phase deploying "Deployment is being deployed and not available now" (pos 0) spec status
  started_status spec (some deployment) failed_pods status =
      let count = deployment.status.available_replicas in
      if is_complete deployment
      then with_phase deployed "Deployment is deployed and available now" count spec status
      else with_phase deploying (deploying_message deployment.status.conditions failed_pods) count
          spec status

  -- updateStatus for a deployment that is not to stop.
  abbrev pub reported_status :
      PhDeploymentSpec
      → Option Observed
      → Option String
      → List FailedPodStatus
      → PhDeploymentStatus
      → PhDeploymentStatus
  reported_status spec deployment (some reason) failed_pods status =
      with_phase failed reason (available deployment) spec status
  reported_status spec deployment none failed_pods status =
      started_status spec deployment failed_pods status

  -- func updateStatus; `error` is the reason of a configuration error.
  unfoldable pub update_status :
      PhDeploymentSpec
      → Option Observed
      → Option String
      → List FailedPodStatus
      → PhDeploymentStatus
      → PhDeploymentStatus
  update_status spec deployment error failed_pods status =
      if spec.stop
      then (if is_up deployment
          then with_phase stopping "deployment is stopping" (pos 0) spec status
          else with_phase stopped "deployment has stopped" (pos 0) spec status)
      else reported_status spec deployment error failed_pods status
