-- ===== src/Deployment/Objects.antt =====
-- ee/controllers/phdeployment_controller.go: the objects of a deployment in the cluster, their deletion,
-- and the secret and the service.
use Prim.Native.String.{◌++◌ as ◌+++◌}
use primehub_controller.Prelude.{
  List, Option, String, [], ◌∷◌, some, none, if◌then◌else◌, Error, not,
}
use primehub_controller.Kube.{ObjectKey}
use primehub_controller.Deployment.{PhDeploymentSpec, is_private_access}
use primehub_controller.Deployment.Build.{DeploymentSpec}
use primehub_controller.Deployment.Status.{DeploymentStatus}

-- appsv1.Deployment with the annotation of what was applied last.
pub record Deployed (J Q : Type 0) : Type 0 where
  pub spec : DeploymentSpec Q
  pub last_applied : Option J
  pub status : DeploymentStatus

-- corev1.Service, of which the ports are constants.
pub record ModelService : Type 0 where
  pub key : ObjectKey
  pub selector : List (String × String)

-- networkv1.Ingress; the class, the TLS and the host come from the settings.
pub record ModelIngress : Type 0 where
  pub key : ObjectKey
  pub annotations : List (String × String)
  pub path : String
  pub backend : String

-- The objects of one PhDeployment in the cluster; a secret is the text of its entry `auth`.
pub record Cluster (J Q : Type 0) : Type 0 where
  pub deployment : Option (Deployed J Q)
  pub service : Option ModelService
  pub ingress : Option ModelIngress
  pub secret : Option String

-- The errors of the calls; a Get without one answers what the cluster has.
pub record Faults : Type 0 where
  pub get_secret : Option Error
  pub refer_secret : Option Error
  pub create_secret : Option Error
  pub update_secret : Option Error
  pub get_deployment : Option Error
  pub create_deployment : Option Error
  pub update_deployment : Option Error
  pub get_again : Option Error
  pub get_service : Option Error
  pub create_service : Option Error
  pub get_ingress : Option Error
  pub create_ingress : Option Error
  pub update_ingress : Option Error
  pub delete_deployment : Option Error
  pub delete_service : Option Error
  pub delete_ingress : Option Error
  pub delete_secret : Option Error

-- What a call leaves in the cluster, and its error.
pub record Step (C : Type 0) : Type 0 where
  pub cluster : C
  pub error : Option Error

abbrev pub done : {C : Type 0} → C → Step C
done cluster = record { cluster = cluster; error = none }

abbrev pub refused : {C : Type 0} → C → Error → Step C
refused cluster e = record { cluster = cluster; error = some e }

-- The cluster after a write, or before one that is refused.
abbrev pub attempt : {C : Type 0} → Option Error → C → C → Step C
attempt none old new = done new
attempt (some e) old new = refused old e

-- if err != nil { ... }
abbrev pub unless_error : {X : Type 0} → Option Error → (Error → X) → X → X
unless_error none on_error go_on = go_on
unless_error (some e) on_error go_on = on_error e

-- The text that createSecret and updateSecret write.
unfoldable pub cipher_text : List (String × String) → String
cipher_text [] = ""
cipher_text (client ∷ clients) = client.0 +++ ":" +++ client.1 +++ "\n" +++ cipher_text clients

abbrev pub kept : {A : Type 0} → Option Error → Option A → Option A
kept none object = none
kept (some e) object = object

-- func buildService
unfoldable pub build_service : ObjectKey → ModelService
build_service key = record {
  key = record { namespace = key.namespace; name = "deploy-" +++ key.name };
  selector = ("app", "primehub-deployment") ∷ ("primehub.io/phdeployment", key.name) ∷ [];
}

module _ {J Q : Type 0} (faults : Faults) where
  -- func deleteDeployment
  unfoldable pub delete_deployment : Cluster J Q → Cluster J Q
  delete_deployment cluster = record cluster {
    deployment = kept faults.delete_deployment cluster.deployment;
  }

  -- deleteService, which gets and deletes the deployment of the name.
  unfoldable pub delete_service : Cluster J Q → Cluster J Q
  delete_service cluster = record cluster {
    deployment = kept faults.delete_service cluster.deployment;
  }

  -- func deleteIngress
  unfoldable pub delete_ingress : Cluster J Q → Cluster J Q
  delete_ingress cluster = record cluster { ingress = kept faults.delete_ingress cluster.ingress }

  -- func deleteSecret
  unfoldable pub delete_secret : Cluster J Q → Cluster J Q
  delete_secret cluster = record cluster { secret = kept faults.delete_secret cluster.secret }

  -- func releaseResources
  unfoldable pub release_resources : Cluster J Q → Cluster J Q
  release_resources cluster =
      delete_secret (delete_ingress (delete_service (delete_deployment cluster)))

  -- createSecret or updateSecret, for the secret that the cluster has.
  abbrev write_secret : PhDeploymentSpec → Cluster J Q → Option String → Step (Cluster J Q)
  write_secret spec cluster none = unless_error faults.refer_secret (refused cluster) (
      attempt faults.create_secret cluster
        (record cluster { secret = some (cipher_text spec.clients) }))
  write_secret spec cluster (some text) =
      attempt faults.update_secret cluster
        (record cluster { secret = some (cipher_text spec.clients) })

  -- func reconcileSecret
  unfoldable pub reconcile_secret : PhDeploymentSpec → Cluster J Q → Step (Cluster J Q)
  reconcile_secret spec cluster =
      if not (is_private_access spec)
      then done cluster
      else unless_error faults.get_secret (refused cluster)
          (write_secret spec cluster cluster.secret)

  abbrev write_service : ObjectKey → Cluster J Q → Option ModelService → Step (Cluster J Q)
  write_service key cluster (some service) = done cluster
  write_service key cluster none =
      done
        (attempt faults.create_service cluster
          (record cluster { service = some (build_service key) })).cluster

  -- reconcileService, which returns no error of its Create.
  unfoldable pub reconcile_service : ObjectKey → Cluster J Q → Step (Cluster J Q)
  reconcile_service key cluster =
      unless_error faults.get_service (refused cluster) (write_service key cluster cluster.service)
