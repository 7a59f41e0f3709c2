-- ===== src/Application/Status.antt =====
-- controllers/phapplication_controller.go: diagnosisStatus and updatePhApplicationStatus.
use Prim.Native.String.{◌++◌ as ◌+++◌}
use primehub_controller.Prelude.{
  Bool, List, Option, Result, String, ℕ, ℤ, [], ◌∷◌, str_eq, false, true, some, none, ok, err,
  if◌then◌else◌, Error, pos,
}
use primehub_controller.GoText.{is_empty}
use primehub_controller.Kube.{ObjectKey}
use primehub_controller.Deployment.PodStates.{Condition, ContainerStatus, Terminated, Waiting}
use primehub_controller.Deployment.Status.{int_eq}
use primehub_controller.Application.{app_name}

-- The phases ApplicationStarting to ApplicationError.
pub data ApplicationPhase : Type 0 where
  starting ready updating stopping stopped failing : ApplicationPhase

-- type PhApplicationStatus
pub record PhApplicationStatus : Type 0 where
  pub phase : ApplicationPhase
  pub message : String
  pub service_name : String

-- appsv1.DeploymentStatus
pub record AppDeploymentStatus : Type 0 where
  pub replicas : ℤ
  pub ready_replicas : ℤ
  pub conditions : List Condition

pub record AppPod : Type 0 where
  pub conditions : List Condition
  pub container_statuses : List ContainerStatus

abbrev said : String → String → String
said reason message = reason +++ ": " +++ message

-- The conditions with a reason, of which the last one counts, after a finding so far.
unfoldable pub last_reason : String → List Condition → Option String → Option String
last_reason reason [] found = found
last_reason reason (condition ∷ conditions) found = last_reason reason conditions (
    if str_eq condition.reason reason
    then some (said condition.reason condition.message)
    else found)

abbrev pub ended_reason : Option Terminated → Option String → Option String
ended_reason none found = found
ended_reason (some terminated) found =
    if is_empty terminated.reason then found else some (said terminated.reason terminated.message)

abbrev pub waiting_reason : Option Waiting → Option Terminated → Option String → Option String
waiting_reason none terminated found = ended_reason terminated found
waiting_reason (some waiting) terminated found =
    if is_empty waiting.message
    then ended_reason terminated found
    else some (said waiting.reason waiting.message)

-- The state of the first container.
abbrev pub container_reason : List ContainerStatus → Option String → Option String
container_reason [] found = found
container_reason (first ∷ others) found =
    waiting_reason first.state.waiting first.state.terminated found

-- The loop over the pods.
unfoldable pub pods_reason : List AppPod → Option String → Option String
pods_reason [] found = found
pods_reason (pod ∷ pods) found =
    pods_reason pods
      (container_reason pod.container_statuses (last_reason "Unschedulable" pod.conditions found))

-- diagnosisStatus; `none` is an empty phase, and a message that of the phase Error.
unfoldable pub diagnosis_status : AppDeploymentStatus → List AppPod → Option String
diagnosis_status status pods = pods_reason pods (last_reason "FailedCreate" status.conditions none)

-- The phase, its message, and the seconds until the next call.
abbrev pub Verdict : Type 0
Verdict = ApplicationPhase × String × ℕ

-- The phase of an application that is not to stop, for what diagnosisStatus returns.
unfoldable pub started_phase : AppDeploymentStatus → Option String → Verdict
started_phase status (some message) = (failing, message, 30)
started_phase status none =
    if int_eq status.ready_replicas (pos 0)
    then (starting, "Deployment is starting", 10)
    else if int_eq status.ready_replicas status.replicas
    then (ready, "Deployment is ready", 0)
    else (updating, "Deployment is updating", 10)

-- diagnosisStatus dereferences the pods, which are nil where the List failed.
abbrev pub diagnosed : AppDeploymentStatus → Result (List AppPod) → Option Verdict
diagnosed status (err e) = none
diagnosed status (ok pods) = some (started_phase status (diagnosis_status status pods))

module _ (describe : Error → String) where
  abbrev pub observed_phase :
      Bool → Result AppDeploymentStatus → Result (List AppPod) → Option Verdict
  observed_phase stop (err e) pods = some (failing, describe e, 0)
  observed_phase true (ok status) pods = some (
      if int_eq status.replicas (pos 0)
      then (stopped, "Deployment had stopped", 0)
      else (stopping, "Deployment is stopping", 0))
  observed_phase false (ok status) pods = diagnosed status pods

  -- The phase that updatePhApplicationStatus sets, for the error of the reconciliations, the answer of the
  -- Get of the deployment and that of the List of its pods; `none` is a panic.
  unfoldable pub verdict :
      Option Error → Bool → Result AppDeploymentStatus → Result (List AppPod) → Option Verdict
  verdict (some e) stop status pods = some (failing, describe e, 0)
  verdict none stop status pods = observed_phase stop status pods

abbrev pub status_of : ObjectKey → Verdict → PhApplicationStatus
status_of key (phase, message, requeue_after) = record {
  phase = phase;
  message = message;
  service_name = app_name key;
}
