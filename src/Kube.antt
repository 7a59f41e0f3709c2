-- ===== src/Kube.antt =====
-- The parts of the Kubernetes objects (k8s.io/api/core/v1, metav1) that the controllers read and
-- write. A metav1.Time is its nanoseconds; a nil pointer is `none`.
use primehub_controller.Numeric.{ResourceList}
use primehub_controller.Prelude.{String, Option, List, ℤ}

-- client.ObjectKey
pub record ObjectKey : Type 0 where
  pub namespace : String
  pub name : String

-- corev1.PodPhase; the phase of a pod that is not stored yet is the empty text.
pub data PodPhase : Type 0 where
  unset pending running succeeded failed unknown : PodPhase

-- corev1.PodCondition
pub record PodCondition : Type 0 where
  pub reason : String
  pub message : String

-- corev1.ContainerStateTerminated. A zero `finished_at` is `none`.
pub record Terminated : Type 0 where
  pub reason : String
  pub message : String
  pub finished_at : Option ℤ

-- corev1.PodStatus; of a container status the code reads `State.Terminated`.
pub record PodStatus : Type 0 where
  pub phase : PodPhase
  pub reason : String
  pub message : String
  pub start_time : Option ℤ
  pub conditions : List PodCondition
  pub container_statuses : List (Option Terminated)

-- corev1.Toleration, its fields with their texts.
abbrev pub Toleration : Type 0
Toleration = List (String × String)

-- A pod, with the limits of its containers.
pub record Pod (Q : Type 0) : Type 0 where
  pub key : ObjectKey
  pub creation_timestamp : ℤ
  pub labels : List (String × String)
  pub limits : List (ResourceList Q)
  pub status : PodStatus
