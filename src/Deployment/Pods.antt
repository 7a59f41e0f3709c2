-- ===== src/Deployment/Pods.antt =====
-- ee/controllers/phdeployment_controller.go: listFailedPods and explain.
use Prim.Native.String.{◌++◌ as ◌+++◌}
use primehub_controller.Prelude.{
  Bool, List, Option, Result, String, ℤ, [], ◌∷◌, ◌++◌, str_eq, ◌&&◌, ◌||◌, not, false, true, some,
  none, ok, err, if◌then◌else◌, pos, zero,
}
use primehub_controller.Deployment.PodStates.{
  Condition, ContainerState, ContainerStatus, Event, FailedPodStatus, ModelPod, Terminated, Waiting,
}

abbrev is_nil : {A : Type 0} → Option A → Bool
is_nil none = true
is_nil (some a) = false

-- A comparison with corev1.ContainerState{}.
abbrev is_zero_state : ContainerState → Bool
is_zero_state state = is_nil state.waiting && not state.is_running && is_nil state.terminated

-- The state of a container, or the one that it ended in before.
unfoldable pub last_state : ContainerStatus → ContainerState
last_state status =
    if is_zero_state status.last_termination_state
    then status.state
    else status.last_termination_state

-- The state that the loops over the containers look at.
unfoldable pub seen_state : ContainerStatus → ContainerState
seen_state status = if status.ready then status.state else last_state status

abbrev is_zero_code : ℤ → Bool
is_zero_code (pos zero) = true
is_zero_code code = false

-- s.Terminated != nil && s.Terminated.ExitCode != 0
abbrev pub has_failed : Option Terminated → Bool
has_failed none = false
has_failed (some terminated) = not (is_zero_code terminated.exit_code)

-- s.Waiting != nil, for the reasons of an image that cannot be pulled.
abbrev pub is_pull_error : Option Waiting → Bool
is_pull_error none = false
is_pull_error (some waiting) =
    str_eq waiting.reason "ImagePullBackOff" || str_eq waiting.reason "ErrImagePull"

abbrev pub is_initializing : Option Waiting → Bool
is_initializing none = false
is_initializing (some waiting) = str_eq waiting.reason "PodInitializing"

abbrev note_condition : Condition → FailedPodStatus → FailedPodStatus
note_condition condition result =
    let noted =
      if str_eq condition.status "False" && not (str_eq condition.reason "ContainersNotReady")
      then record result { conditions = result.conditions ++ condition ∷ [] }
      else result in
    if str_eq condition.reason "Unschedulable"
    then record noted { is_unschedulable = true }
    else noted

abbrev note_conditions : List Condition → FailedPodStatus → FailedPodStatus
note_conditions [] result = result
note_conditions (condition ∷ conditions) result =
    note_conditions conditions (note_condition condition result)

abbrev add_status : ContainerStatus → FailedPodStatus → FailedPodStatus
add_status status result = record result {
  container_statuses = result.container_statuses ++ status ∷ [];
}

-- What both loops note of a container.
abbrev note_container : ContainerStatus → FailedPodStatus → FailedPodStatus
note_container status result =
    let state = seen_state status in
    let ended =
      if has_failed state.terminated
      then record (add_status status result) { is_terminated = true }
      else result in
    if is_pull_error state.waiting
    then record (add_status status ended) { is_image_error = true }
    else ended

abbrev note_containers : List ContainerStatus → FailedPodStatus → FailedPodStatus
note_containers [] result = result
note_containers (status ∷ statuses) result = note_containers statuses (note_container status result)

abbrev no_state : ContainerState
no_state = record { waiting = none; is_running = false; terminated = none }

-- The status that stands for an event.
abbrev mount_failure : Event → ContainerStatus
mount_failure event = record {
  name = "FailedMount";
  ready = false;
  state = record no_state {
    waiting = some (record { reason = event.reason; message = event.message });
  };
  last_termination_state = no_state;
}

abbrev note_events : String → List Event → FailedPodStatus → FailedPodStatus
note_events uid [] result = result
note_events uid (event ∷ events) result = note_events uid events (
    if str_eq event.reason "FailedMount" && str_eq event.kind "Pod" && str_eq event.uid uid
    then record (add_status (mount_failure event) result) { is_model_storage_init_error = true }
    else result)

-- The events of the namespace as the List shows them.
abbrev note_listed : String → Result (List Event) → FailedPodStatus → FailedPodStatus
note_listed uid (ok events) result = note_events uid events result
note_listed uid (err e) result = result

abbrev note_init_container :
    String → Result (List Event) → ContainerStatus → FailedPodStatus → FailedPodStatus
note_init_container uid events status result =
    let state = seen_state status in
    let named =
      if has_failed state.terminated && str_eq status.name "model-storage-initializer"
      then record result { is_model_storage_init_error = true }
      else result in
    let noted = note_container status named in
    if is_initializing state.waiting then note_listed uid events noted else noted

abbrev note_init_containers :
    String → Result (List Event) → List ContainerStatus → FailedPodStatus → FailedPodStatus
note_init_containers uid events [] result = result
note_init_containers uid events (status ∷ statuses) result =
    note_init_containers uid events statuses (note_init_container uid events status result)

-- What the loop body of listFailedPods finds for a pod.
unfoldable pub inspected_status : Result (List Event) → ModelPod → FailedPodStatus
inspected_status events pod = note_containers pod.container_statuses (
    note_init_containers pod.uid events pod.init_container_statuses (
      note_conditions pod.conditions (record {
        pod = pod.name;
        conditions = [];
        container_statuses = [];
        is_image_error = false;
        is_terminated = false;
        is_unschedulable = false;
        is_model_storage_init_error = false;
      })))

abbrev is_reported : List Condition → List ContainerStatus → Bool
is_reported [] [] = false
is_reported (condition ∷ conditions) statuses = true
is_reported [] (status ∷ statuses) = true

-- The pods of the loop that are not being deleted and have something to report.
unfoldable pub failed_pods : Result (List Event) → List ModelPod → List FailedPodStatus
failed_pods events [] = []
failed_pods events (pod ∷ pods) =
    let rest = failed_pods events pods in
    let found = inspected_status events pod in
    if not pod.is_deleted && is_reported found.conditions found.container_statuses
    then found ∷ rest
    else rest

-- func listFailedPods, for the answers of the two List calls.
unfoldable pub list_failed_pods :
    Result (List ModelPod) → Result (List Event) → List FailedPodStatus
list_failed_pods (ok pods) events = failed_pods events pods
list_failed_pods (err e) events = []

abbrev explain_conditions : List Condition → String
explain_conditions [] = ""
explain_conditions (condition ∷ conditions) =
    "\n  reason: "
    +++ condition.reason
    +++ ", message: "
    +++ condition.message
    +++ explain_conditions conditions

abbrev explain_waiting : Option Waiting → String
explain_waiting none = ""
explain_waiting (some waiting) =
    "\n  container state: Waiting, reason: " +++ waiting.reason +++ ", message " +++ waiting.message

module _ (show : ℤ → String) where
  abbrev explain_terminated : Option Terminated → String
  explain_terminated none = ""
  explain_terminated (some terminated) =
      "\n  container state: Terminated, reason: "
      +++ terminated.reason
      +++ ", message "
      +++ terminated.message
      +++ ", exit-code: "
      +++ show terminated.exit_code

  abbrev explain_containers : List ContainerStatus → String
  explain_containers [] = ""
  explain_containers (status ∷ statuses) =
      explain_waiting (last_state status).waiting
      +++ explain_terminated (last_state status).terminated
      +++ explain_containers statuses

  -- func explain
  unfoldable pub explain : List FailedPodStatus → String
  explain [] = ""
  explain (found ∷ others) =
      "\npod["
      +++ found.pod
      +++ "] failed"
      +++ explain_conditions found.conditions
      +++ explain_containers found.container_statuses
      +++ explain others
