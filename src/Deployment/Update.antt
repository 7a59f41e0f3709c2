-- ===== src/Deployment/Update.antt =====
-- ee/controllers/phdeployment_controller.go: createDeployment, updateDeployment and reconcileDeployment.
use primehub_controller.Prelude.{
  pos, Bool, List, Option, Result, String, ℤ, [], ◌||◌, ◌&&◌, false, true, some, none, ok, err,
  if◌then◌else◌, Error, not, str_eq,
}
use primehub_controller.Numeric.{Numeric}
use primehub_controller.Deployment.{Codec, PhDeploymentSpec, PhDeploymentStatus, compare_env_var}
use primehub_controller.Deployment.PodStates.{ModelPod, Event}
use primehub_controller.Deployment.Pods.{list_failed_pods}
use primehub_controller.Deployment.Status.{DeploymentStatus, Observed, int_eq, update_status}
use primehub_controller.Deployment.Build.{DeploymentSpec, replicas_of}
use primehub_controller.Deployment.Objects.{unless_error, Cluster, Deployed, Faults}

-- needUpdateDeployment for a specification that was applied.
unfoldable pub differs : PhDeploymentSpec → PhDeploymentSpec → Bool
differs spec last =
    not (str_eq spec.predictor.model_image last.predictor.model_image)
    || not (str_eq spec.predictor.image_pull_secret last.predictor.image_pull_secret)
    || not (str_eq spec.predictor.instance_type last.predictor.instance_type)
    || not (str_eq spec.predictor.model_uri last.predictor.model_uri)
    || not (compare_env_var spec.env last.env)

-- func needUpdateDeployment
unfoldable pub need_update_deployment : PhDeploymentSpec → Option PhDeploymentSpec → Bool
need_update_deployment spec none = true
need_update_deployment spec (some last) = differs spec last

abbrev pub same_bool : Bool → Bool → Bool
same_bool true b = b
same_bool false b = not b

-- func needScaleDeployment
unfoldable pub need_scale_deployment : PhDeploymentSpec → PhDeploymentSpec → Bool
need_scale_deployment spec last =
    not (same_bool spec.stop last.stop)
    || not (int_eq spec.predictor.replicas last.predictor.replicas)

-- What the cluster shows when updateDeployment reads the deployment again: its status, its pods and the
-- events of the namespace.
pub record Seen : Type 0 where
  pub status : DeploymentStatus
  pub pods : Result (List ModelPod)
  pub events : Result (List Event)

-- How a reconciliation of the deployment ends: with the cluster, the status of the PhDeployment, and the
-- error of a call.
pub record Ended (J Q : Type 0) : Type 0 where
  pub cluster : Cluster J Q
  pub status : PhDeploymentStatus
  pub error : Option Error

module _ ⦃api : Numeric⦄ (codec : Codec) where
  open api use {Quantity}
  open codec use {Json}

  -- GetLastApplied; where the annotation does not parse it is none, and the error is not read.
  unfoldable pub get_last_applied : Deployed Json Quantity → Option PhDeploymentSpec
  get_last_applied object = elim object.last_applied [
    | none ↦ none
    | some json ↦ codec.unmarshal json
  ]

  -- func SetLastApplied
  unfoldable pub set_last_applied :
      PhDeploymentSpec → Deployed Json Quantity → Deployed Json Quantity
  set_last_applied spec object = record object { last_applied = some (codec.marshal spec) }

  module _ (show : ℤ → String) (describe : Error → String) (faults : Faults)
      (build : PhDeploymentSpec → Option (Result (DeploymentSpec Quantity))) (seen : Seen)
      (has_empty : Bool) (spec : PhDeploymentSpec) (status : PhDeploymentStatus) where
    abbrev Objects : Type 0
    Objects = Cluster Json Quantity

    -- A specification that cannot be built is a configuration error.
    abbrev pub misconfigured : Objects → Error → Ended Json Quantity
    misconfigured cluster e = record {
      cluster = cluster;
      status = update_status show spec none (some (describe e)) [] status;
      error = none;
    }

    abbrev pub failed_with : Error → Objects → Ended Json Quantity
    failed_with e cluster = record { cluster = cluster; status = status; error = some e }

    abbrev observed : Deployed Json Quantity → Observed
    observed object = record { replicas = object.spec.replicas; status = object.status }

    -- updateDeployment from the second Get on.
    unfoldable pub look_again : Objects → Deployed Json Quantity → Ended Json Quantity
    look_again cluster object =
        let now = record object { status = seen.status } in
        unless_error faults.get_again (λ e. failed_with e cluster)
          (record {
            cluster = record cluster { deployment = some now };
            status =
                update_status show spec (some (observed now)) none
                  (list_failed_pods seen.pods seen.events) status;
            error = none;
          })

    -- The write of a deployment whose specification is set.
    unfoldable pub apply_changed : Objects → Deployed Json Quantity → Ended Json Quantity
    apply_changed cluster object =
        let applied = set_last_applied spec object in
        unless_error faults.update_deployment (λ e. failed_with e cluster)
          (look_again (record cluster { deployment = some applied }) applied)

    -- reflect.DeepEqual of the specification and the one that was applied. It tells an empty list from a
    -- nil one; the one that was applied has no empty ones, as SetLastApplied leaves them out.
    abbrev pub is_applied : Option PhDeploymentSpec → Bool
    is_applied none = false
    is_applied (some last) = not has_empty && codec.deep_equal spec last

    unfoldable pub write_changed :
        Objects → Option PhDeploymentSpec → Deployed Json Quantity → Ended Json Quantity
    write_changed cluster last object =
        if is_applied last then look_again cluster object else apply_changed cluster object

    abbrev pub rebuilt :
        Objects
        → Option PhDeploymentSpec
        → Deployed Json Quantity
        → Option (Result (DeploymentSpec Quantity))
        → Option (Ended Json Quantity)
    rebuilt cluster last object none = none
    rebuilt cluster last object (some (err e)) = some (misconfigured cluster e)
    rebuilt cluster last object (some (ok built)) =
        some (write_changed cluster last (record object { spec = built }))

    abbrev pub scaled : Deployed Json Quantity → Deployed Json Quantity
    scaled object = record object { spec = record object.spec { replicas = replicas_of spec } }

    -- updateDeployment for the specification that was applied last.
    unfoldable pub update_from :
        Objects → Option PhDeploymentSpec → Deployed Json Quantity → Option (Ended Json Quantity)
    update_from cluster none object = rebuilt cluster none object (build spec)
    update_from cluster (some last) object =
        if differs spec last
        then rebuilt cluster (some last) object (build spec)
        else if need_scale_deployment spec last
        then some (write_changed cluster (some last) (scaled object))
        else some (write_changed cluster (some last) object)

    -- updateDeployment; `none` is a panic of buildDeployment.
    unfoldable pub update_deployment :
        Objects → Deployed Json Quantity → Option (Ended Json Quantity)
    update_deployment cluster object = update_from cluster (get_last_applied object) object

    -- A deployment as it is created has no status.
    abbrev pub fresh : DeploymentSpec Quantity → Deployed Json Quantity
    fresh built = record {
      spec = built;
      last_applied = some (codec.marshal spec);
      status = record { available_replicas = pos 0; updated_replicas = pos 0; conditions = [] };
    }

    abbrev pub created_deployment :
        Objects → Option (Result (DeploymentSpec Quantity)) → Option (Ended Json Quantity)
    created_deployment cluster none = none
    created_deployment cluster (some (err e)) = some (misconfigured cluster e)
    created_deployment cluster (some (ok built)) = some (
        unless_error faults.create_deployment (λ e. failed_with e cluster)
          (record {
            cluster = record cluster { deployment = some (fresh built) };
            status = status;
            error = none;
          }))

    -- func createDeployment
    unfoldable pub create_deployment : Objects → Option (Ended Json Quantity)
    create_deployment cluster = created_deployment cluster (build spec)

    abbrev pub found_deployment :
        Objects → Option (Deployed Json Quantity) → Option (Ended Json Quantity)
    found_deployment cluster none = create_deployment cluster
    found_deployment cluster (some object) = update_deployment cluster object

    -- func reconcileDeployment
    unfoldable pub reconcile_deployment : Objects → Option (Ended Json Quantity)
    reconcile_deployment cluster =
        unless_error faults.get_deployment (λ e. some (failed_with e cluster))
          (found_deployment cluster cluster.deployment)
