-- ===== src/Deployment/PodStates.antt =====
-- The parts of pods and events that ee/controllers/phdeployment_controller.go reads of Kubernetes objects.
use primehub_controller.Prelude.{Bool, List, Option, String, ℤ}

-- corev1.ContainerStateWaiting
pub record Waiting : Type 0 where
  pub reason : String
  pub message : String

-- corev1.ContainerStateTerminated
pub record Terminated : Type 0 where
  pub reason : String
  pub message : String
  pub exit_code : ℤ

-- corev1.ContainerState; of a running container the code reads nothing.
pub record ContainerState : Type 0 where
  pub waiting : Option Waiting
  pub is_running : Bool
  pub terminated : Option Terminated

pub record ContainerStatus : Type 0 where
  pub name : String
  pub ready : Bool
  pub state : ContainerState
  pub last_termination_state : ContainerState

-- corev1.PodCondition
pub record Condition : Type 0 where
  pub status : String
  pub reason : String
  pub message : String

-- corev1.Event, with the kind and the uid of its object.
pub record Event : Type 0 where
  pub reason : String
  pub message : String
  pub kind : String
  pub uid : String

pub record ModelPod : Type 0 where
  pub name : String
  pub uid : String
  pub is_deleted : Bool
  pub conditions : List Condition
  pub init_container_statuses : List ContainerStatus
  pub container_statuses : List ContainerStatus

-- type FailedPodStatus
pub record FailedPodStatus : Type 0 where
  pub pod : String
  pub conditions : List Condition
  pub container_statuses : List ContainerStatus
  pub is_image_error : Bool
  pub is_terminated : Bool
  pub is_unschedulable : Bool
  pub is_model_storage_init_error : Bool
