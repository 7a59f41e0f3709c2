-- ===== src/Deployment/Reconcile.antt =====
-- ee/controllers/phdeployment_controller.go: Reconcile.
use Prim.Native.String.{◌++◌ as ◌+++◌}
use primehub_controller.Prelude.{
  Bool, List, Option, Result, String, ℕ, ℤ, [], false, true, some, none, ok, err, if◌then◌else◌,
  Error, str_eq,
}
use primehub_controller.Numeric.{Numeric}
use primehub_controller.Kube.{ObjectKey}
use primehub_controller.Spawn.{EnvVar}
use primehub_controller.Deployment.{
  Codec, PhDeployment, PhDeploymentSpec, PhDeploymentStatus, DeploymentPhase, deploying,
}
use primehub_controller.Deployment.Status.{update_status}
use primehub_controller.Deployment.Build.{DeploymentSpec}
use primehub_controller.Deployment.Objects.{
  Step, unless_error, Cluster, Faults, release_resources, reconcile_secret, reconcile_service,
}
use primehub_controller.Deployment.Access.{Annotations, reconcile_ingress}
use primehub_controller.Deployment.Update.{Seen, Ended, reconcile_deployment}
use primehub_controller.Deployment.Recorded.{update_history}

-- The answers to Reconcile: the two Get calls of the PhDeployment, the flag of the group, the pods, the
-- error of the status update, and the time. `sort_env` is sort.Slice by the names.
pub record Answers : Type 0 where
  pub get : Result PhDeployment
  pub group_enabled : Result Bool
  pub faults : Faults
  pub seen : Seen
  pub get_to_update : Result PhDeployment
  pub update_status_error : Option Error
  pub now : ℤ

-- What a call of Reconcile leaves: the cluster, the annotations of the settings, the status that it
-- stores, and the seconds until the next call or the error.
pub record Reconciled (J Q : Type 0) : Type 0 where
  pub cluster : Cluster J Q
  pub shared : Annotations
  pub stored : Option PhDeploymentStatus
  pub requeue_after : ℕ
  pub error : Option Error

-- What Reconcile has before it reads the PhDeployment again.
pub record Course (J Q : Type 0) : Type 0 where
  pub cluster : Cluster J Q
  pub shared : Annotations
  pub status : PhDeploymentStatus
  pub error : Option Error

-- The error by which FetchGroupEnableModelDeployment reports a group that is gone.
abbrev pub group_not_found : String
group_not_found = "can not find group in response"

module _ ⦃api : Numeric⦄ (codec : Codec) (show : ℤ → String) (describe : Error → String)
    (same_status : PhDeploymentStatus → PhDeploymentStatus → Bool)
    (sort_env : List EnvVar → List EnvVar) (primehub_url : String)
    (build : ObjectKey → PhDeploymentSpec → Option (Result (DeploymentSpec api.Quantity))) where
  open api use {Quantity}
  open codec use {Json}

  module _ (answers : Answers) (deployment : PhDeployment) where
    -- The status of a PhDeployment whose group does not allow it.
    abbrev rejected : String → PhDeploymentStatus
    rejected reason = update_status show deployment.spec none (some reason) [] deployment.status

    abbrev ended_early :
        Cluster Json Quantity → Annotations → PhDeploymentStatus → Error → Course Json Quantity
    ended_early cluster shared status e = record {
      cluster = cluster;
      shared = shared;
      status = status;
      error = some e;
    }

    abbrev with_endpoint : PhDeploymentStatus → PhDeploymentStatus
    with_endpoint status = record status {
      endpoint =
          primehub_url +++ "/deployment/" +++ deployment.key.name +++ "/api/v1.0/predictions";
    }

    abbrev after_ingress :
        PhDeploymentStatus
        → Cluster Json Quantity
        → Annotations
        → Option Error
        → Course Json Quantity
    after_ingress status cluster shared none = record {
      cluster = cluster;
      shared = shared;
      status = with_endpoint status;
      error = none;
    }
    after_ingress status cluster shared (some e) = ended_early cluster shared status e

    abbrev after_access :
        PhDeploymentStatus
        → Option (Step (Cluster Json Quantity) × Annotations)
        → Option (Course Json Quantity)
    after_access status none = none
    after_access status (some (step, annotations)) =
        some (after_ingress status step.cluster annotations step.error)

    abbrev after_service :
        Annotations
        → PhDeploymentStatus
        → Cluster Json Quantity
        → Option Error
        → Option (Course Json Quantity)
    after_service shared status cluster none =
        after_access status
          (reconcile_ingress answers.faults deployment.key deployment.spec shared cluster)
    after_service shared status cluster (some e) = some (ended_early cluster shared status e)

    abbrev after_deployment :
        Annotations
        → PhDeploymentStatus
        → Cluster Json Quantity
        → Option Error
        → Option (Course Json Quantity)
    after_deployment shared status cluster none =
        let step = reconcile_service answers.faults deployment.key cluster in
        after_service shared status step.cluster step.error
    after_deployment shared status cluster (some e) = some (ended_early cluster shared status e)

    abbrev after_run : Annotations → Option (Ended Json Quantity) → Option (Course Json Quantity)
    after_run shared none = none
    after_run shared (some ended) = after_deployment shared ended.status ended.cluster ended.error

    abbrev after_secret :
        Annotations → Cluster Json Quantity → Option Error → Option (Course Json Quantity)
    after_secret shared cluster none = after_run shared (
        reconcile_deployment codec show describe answers.faults (build deployment.key) answers.seen
          deployment.has_empty deployment.spec deployment.status cluster)
    after_secret shared cluster (some e) = some (ended_early cluster shared deployment.status e)

    -- The four reconciliations of a PhDeployment whose group allows it; `none` is a panic.
    unfoldable pub reconcile_allowed :
        Annotations → Cluster Json Quantity → Option (Course Json Quantity)
    reconcile_allowed shared cluster =
        let step = reconcile_secret answers.faults deployment.spec cluster in
        after_secret shared step.cluster step.error

    abbrev released : Annotations → Cluster Json Quantity → String → Course Json Quantity
    released shared cluster reason = record {
      cluster = release_resources answers.faults cluster;
      shared = shared;
      status = rejected reason;
      error = none;
    }

    -- What Reconcile does for the answer on the group.
    unfoldable pub reconcile_for_group :
        Annotations → Cluster Json Quantity → Result Bool → Option (Course Json Quantity)
    reconcile_for_group shared cluster (ok true) = reconcile_allowed shared cluster
    reconcile_for_group shared cluster (ok false) =
        some (released shared cluster "The model deployment is not enabled for the selected group")
    reconcile_for_group shared cluster (err e) = some (
        if str_eq (describe e) group_not_found
        then released shared cluster "Group Not Found"
        else record {
          cluster = cluster;
          shared = shared;
          status = rejected (describe e);
          error = none;
        })

  abbrev requeue_for : DeploymentPhase → ℕ
  requeue_for deploying = 15
  requeue_for other = 120

  abbrev pub left :
      Course Json Quantity → Option PhDeploymentStatus → ℕ → Option Error → Reconciled Json Quantity
  left course stored requeue_after error = record {
    cluster = course.cluster;
    shared = course.shared;
    stored = stored;
    requeue_after = requeue_after;
    error = error;
  }

  -- The write of a status that has changed.
  abbrev pub publish : Answers → Course Json Quantity → PhDeployment → Reconciled Json Quantity
  publish answers course current =
      let soon = requeue_for course.status.phase in
      if same_status current.status course.status
      then left course none soon none
      else unless_error answers.update_status_error (λ e. left course none 60 (some e))
          (left course (some course.status) soon none)

  abbrev pub read_again :
      Answers → Course Json Quantity → Result PhDeployment → Reconciled Json Quantity
  read_again answers course (err e) = left course none 0 none
  read_again answers course (ok current) = publish answers course current

  -- Reconcile from the end of its reconciliations on.
  unfoldable pub settle : Answers → Course Json Quantity → Option Error → Reconciled Json Quantity
  settle answers course (some e) = left course none 60 (some e)
  settle answers course none = read_again answers course answers.get_to_update

  abbrev pub settled : Answers → Option (Course Json Quantity) → Option (Reconciled Json Quantity)
  settled answers none = none
  settled answers (some course) = some (settle answers course course.error)

  -- The copy that Reconcile works on, with its variables sorted and its history brought up to date.
  unfoldable pub prepared : ℤ → PhDeployment → PhDeployment
  prepared now deployment =
      let spec = record deployment.spec { env = sort_env deployment.spec.env } in
      record deployment {
        spec = spec;
        status = record deployment.status {
          history = update_history codec spec now deployment.status.history;
        };
      }

  -- Reconcile of a PhDeployment that the Get found.
  unfoldable pub reconcile_found :
      Answers
      → Annotations
      → Cluster Json Quantity
      → PhDeployment
      → Option (Reconciled Json Quantity)
  reconcile_found answers shared cluster deployment = settled answers (
      reconcile_for_group answers (prepared answers.now deployment) shared cluster
        answers.group_enabled)

  abbrev reconcile_read :
      Answers
      → Annotations
      → Cluster Json Quantity
      → Result PhDeployment
      → Option (Reconciled Json Quantity)
  reconcile_read answers shared cluster (ok deployment) =
      reconcile_found answers shared cluster deployment
  reconcile_read answers shared cluster (err e) = some (record {
    cluster = cluster;
    shared = shared;
    stored = none;
    requeue_after = 0;
    error = none;
  })

  -- Reconcile; an error of the Get is not returned.
  unfoldable pub reconcile_deployments :
      Answers → Annotations → Cluster Json Quantity → Option (Reconciled Json Quantity)
  reconcile_deployments answers shared cluster = reconcile_read answers shared cluster answers.get
