-- ===== src/Application/Objects.antt =====
-- api/v1alpha1/phapplication_types.go, and the objects that an application owns.
use primehub_controller.Prelude.{Bool, List, Option, String, ℤ, [], ◌∷◌, some, none, put}
use primehub_controller.Kube.{ObjectKey}
use primehub_controller.Spawn.Build.{PodSpec}

-- corev1.ServicePort
pub record ServicePort : Type 0 where
  pub name : String
  pub protocol : String
  pub port : ℤ
  pub target_port : String

-- type PhApplicationSpec with the ports of its service template.
pub record PhApplicationSpec (Q : Type 0) : Type 0 where
  pub display_name : String
  pub group_name : String
  pub instance_type : String
  pub stop : Bool
  pub pod_template : PodSpec Q
  pub ports : List ServicePort
  pub app_root : String

-- type PhApplication
pub record PhApplication (Q : Type 0) : Type 0 where
  pub key : ObjectKey
  pub spec : PhApplicationSpec Q

abbrev pub Labels : Type 0
Labels = List (String × String)

-- A write into the map of an object that the API server returned: the map is nil where the object has no
-- entries, and the write into a nil map is a panic, `none`.
unfoldable pub put_in_read : String → String → Labels → Option Labels
put_in_read key value [] = none
put_in_read key value (entry ∷ entries) = some (put key value (entry ∷ entries))

-- networkv1.NetworkPolicyIngressRule: the protocols and the ports, and the labels of the pods that may use
-- them.
pub record IngressRule : Type 0 where
  pub ports : List (String × String)
  pub peers : List Labels

-- networkv1.NetworkPolicy of the type Ingress.
pub record NetworkPolicy : Type 0 where
  pub key : ObjectKey
  pub labels : Labels
  pub pod_selector : Labels
  pub ingress : List IngressRule

-- corev1.Service of the type ClusterIP.
pub record AppService : Type 0 where
  pub key : ObjectKey
  pub labels : Labels
  pub selector : Labels
  pub ports : List ServicePort

-- appsv1.Deployment; `pod` and `annotations` are those of its template.
pub record AppDeployment (Q : Type 0) : Type 0 where
  pub key : ObjectKey
  pub labels : Labels
  pub replicas : ℤ
  pub selector : Labels
  pub template_labels : Labels
  pub annotations : Labels
  pub pod : PodSpec Q

-- GroupNetworkPolicy and ProxyNetwrokPolicy
pub data PolicyKind : Type 0 where
  group_policy proxy_policy : PolicyKind

abbrev pub policy_name : PolicyKind → String
policy_name group_policy = "group"
policy_name proxy_policy = "proxy"

-- The loop over the ports of the service template.
unfoldable pub policy_ports : List ServicePort → List (String × String)
policy_ports [] = []
policy_ports (p ∷ ports) = (p.protocol, p.target_port) ∷ policy_ports ports
