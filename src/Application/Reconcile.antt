-- ===== src/Application/Reconcile.antt =====
-- controllers/phapplication_controller.go: the reconciliations of the deployment, the service and the
-- network policies, and Reconcile.
use primehub_controller.Prelude.{
  List, Option, Result, String, ℕ, [], some, none, ok, err, Error, not_found, already_exists,
  message,
}
use primehub_controller.Numeric.{Numeric}
use primehub_controller.GoText.{Casing}
use primehub_controller.Escapism.{Unicode}
use primehub_controller.Graphql.{DtoDataset}
use primehub_controller.Application.Objects.{
  PhApplication, AppDeployment, AppService, NetworkPolicy, PolicyKind, group_policy, proxy_policy,
  Labels,
}
use primehub_controller.Application.{
  AppFetched, AppSettings, built_policy, updated_policy, built_service, updated_service,
  generate_deployment_spec,
}
use primehub_controller.Application.Status.{
  AppDeploymentStatus, AppPod, PhApplicationStatus, Verdict, verdict, status_of,
}
use primehub_controller.Deployment.Objects.{Step, refused, attempt, unless_error}

-- The objects of one application in the cluster.
pub record AppCluster (Q : Type 0) : Type 0 where
  pub deployment : Option (AppDeployment Q)
  pub service : Option AppService
  pub group_policy : Option NetworkPolicy
  pub proxy_policy : Option NetworkPolicy

-- The errors of the calls; that of a Create is of SetControllerReference or of the call. A Get without one
-- answers what the cluster has.
pub record AppFaults : Type 0 where
  pub get_deployment : Option Error
  pub create_deployment : Option Error
  pub update_deployment : Option Error
  pub get_service : Option Error
  pub create_service : Option Error
  pub update_service : Option Error
  pub get_group_policy : Option Error
  pub get_proxy_policy : Option Error
  pub write_group_policy : Option Error
  pub write_proxy_policy : Option Error

-- The answers to Reconcile; `status` and `pods` are those of updatePhApplicationStatus.
pub record AppAnswers (Q F : Type 0) : Type 0 where
  pub get : Result (PhApplication Q)
  pub fetched : AppFetched F
  pub faults : AppFaults
  pub status : Result AppDeploymentStatus
  pub pods : Result (List AppPod)
  pub update_status_error : Option Error

-- What a call of Reconcile leaves: the cluster, the status that it stores, and the seconds until the next
-- call or the error.
pub record AppRun (Q : Type 0) : Type 0 where
  pub cluster : AppCluster Q
  pub stored : Option PhApplicationStatus
  pub requeue_after : ℕ
  pub error : Option Error

-- The later of two errors.
abbrev pub or_earlier : Option Error → Option Error → Option Error
or_earlier (some later) earlier = some later
or_earlier none earlier = earlier

module _ {Q : Type 0} (tables : Unicode) (faults : AppFaults) (app : PhApplication Q) where
  -- An Update of the service, after the panic of a service that cannot be changed.
  abbrev pub put_service :
      Option Error → AppCluster Q → Option AppService → Option (Step (AppCluster Q))
  put_service fault cluster none = none
  put_service fault cluster (some service) =
      some (attempt fault cluster (record cluster { service = some service }))

  abbrev pub write_service : AppCluster Q → Option AppService → Option (Step (AppCluster Q))
  write_service cluster none =
      put_service faults.create_service cluster (some (built_service tables app))
  write_service cluster (some service) =
      put_service faults.update_service cluster (updated_service tables app service)

  -- func reconcileService; `none` is a panic.
  unfoldable pub reconcile_app_service : AppCluster Q → Option (Step (AppCluster Q))
  reconcile_app_service cluster =
      unless_error faults.get_service (λ e. some (refused cluster e))
        (write_service cluster cluster.service)

  -- createNetworkPolicy or updateNetworkPolicy, up to the call; `none` is a panic.
  abbrev pub written_policy : PolicyKind → Option NetworkPolicy → Option NetworkPolicy
  written_policy kind none = some (built_policy tables kind app)
  written_policy kind (some policy) = updated_policy tables kind app policy

  abbrev pub write_proxy_policy : AppCluster Q → Option NetworkPolicy → Option (Step (AppCluster Q))
  write_proxy_policy cluster none = none
  write_proxy_policy cluster (some policy) =
      some
        (attempt faults.write_proxy_policy cluster (record cluster { proxy_policy = some policy }))

  -- The write of the first policy, whose error is overwritten, and that of the second one.
  abbrev pub write_group_policy :
      AppCluster Q → Option NetworkPolicy → Option NetworkPolicy → Option (Step (AppCluster Q))
  write_group_policy cluster none proxy = none
  write_group_policy cluster (some policy) proxy =
      write_proxy_policy
        (attempt faults.write_group_policy cluster
          (record cluster { group_policy = some policy })).cluster
        proxy

  -- reconcileNetworkPolicy, which returns the error of the second write only; `none` is a panic.
  unfoldable pub reconcile_network_policy : AppCluster Q → Option (Step (AppCluster Q))
  reconcile_network_policy cluster =
      unless_error faults.get_group_policy (λ e. some (refused cluster e))
        (unless_error faults.get_proxy_policy (λ e. some (refused cluster e))
          (write_group_policy cluster (written_policy group_policy cluster.group_policy)
            (written_policy proxy_policy cluster.proxy_policy)))

module _ ⦃api : Numeric⦄ (tables : Unicode) (casing : Casing)
    (range : List (String × DtoDataset) → List (String × DtoDataset)) (megabyte : api.Quantity)
    (settings : AppSettings api.Quantity) (marshal_map : List (String × String) → String) where
  open api use {Quantity, Float}

  abbrev pub old_annotations : Option (AppDeployment Quantity) → Labels
  old_annotations none = []
  old_annotations (some deployment) = deployment.annotations

  abbrev pub write_fault : AppFaults → Option (AppDeployment Quantity) → Option Error
  write_fault faults none = faults.create_deployment
  write_fault faults (some deployment) = faults.update_deployment

  abbrev pub write_deployment :
      AppCluster Quantity
      → Option Error
      → Option (Result (AppDeployment Quantity))
      → Option (Step (AppCluster Quantity))
  write_deployment cluster fault none = none
  write_deployment cluster fault (some (err e)) = some (refused cluster e)
  write_deployment cluster fault (some (ok deployment)) =
      some (attempt fault cluster (record cluster { deployment = some deployment }))

  -- func reconcileDeployment, with createDeployment and updateDeployment; `none` is a panic.
  unfoldable pub reconcile_app_deployment :
      AppFaults
      → PhApplication Quantity
      → AppFetched Float
      → AppCluster Quantity
      → Option (Step (AppCluster Quantity))
  reconcile_app_deployment faults app fetched cluster =
      unless_error faults.get_deployment (λ e. some (refused cluster e))
        (write_deployment cluster (write_fault faults cluster.deployment) (
          generate_deployment_spec tables casing range megabyte settings marshal_map app
            (old_annotations cluster.deployment) fetched))

  module _ (describe : Error → String) where
    abbrev pub app_left :
        AppCluster Quantity → Option PhApplicationStatus → ℕ → Option Error → AppRun Quantity
    app_left cluster stored requeue_after error = record {
      cluster = cluster;
      stored = stored;
      requeue_after = requeue_after;
      error = error;
    }

    -- The status update, of which Reconcile does not return the error.
    abbrev pub app_published :
        AppAnswers Quantity Float
        → PhApplication Quantity
        → AppCluster Quantity
        → Option Verdict
        → Option (AppRun Quantity)
    app_published answers app cluster none = none
    app_published answers app cluster (some found) = some (
        unless_error answers.update_status_error (λ e. app_left cluster none 0 none)
          (app_left cluster (some (status_of app.key found)) found.2 none))

    -- Reconcile after the reconciliation of the network policies.
    abbrev pub after_policies :
        AppAnswers Quantity Float
        → PhApplication Quantity
        → Option Error
        → Option (Step (AppCluster Quantity))
        → Option (AppRun Quantity)
    after_policies answers app earlier none = none
    after_policies answers app earlier (some third) = app_published answers app third.cluster (
        verdict describe (or_earlier third.error earlier) app.spec.stop answers.status answers.pods)

    -- Reconcile after the reconciliation of the service.
    abbrev pub after_service :
        AppAnswers Quantity Float
        → PhApplication Quantity
        → Option Error
        → Option (Step (AppCluster Quantity))
        → Option (AppRun Quantity)
    after_service answers app earlier none = none
    after_service answers app earlier (some second) =
        after_policies answers app (or_earlier second.error earlier)
          (reconcile_network_policy tables answers.faults app second.cluster)

    -- Reconcile after the reconciliation of the deployment.
    abbrev pub app_rest :
        AppAnswers Quantity Float
        → PhApplication Quantity
        → Option (Step (AppCluster Quantity))
        → Option (AppRun Quantity)
    app_rest answers app none = none
    app_rest answers app (some first) =
        after_service answers app first.error
          (reconcile_app_service tables answers.faults app first.cluster)

    -- Reconcile for the answer of the Get.
    abbrev pub app_read :
        AppAnswers Quantity Float
        → AppCluster Quantity
        → Result (PhApplication Quantity)
        → Option (AppRun Quantity)
    app_read answers cluster (ok app) =
        app_rest answers app (reconcile_app_deployment answers.faults app answers.fetched cluster)
    app_read answers cluster (err not_found) = some (app_left cluster none 0 none)
    app_read answers cluster (err already_exists) =
        some (app_left cluster none 0 (some already_exists))
    app_read answers cluster (err (message text)) =
        some (app_left cluster none 0 (some (message text)))

    -- Reconcile; `none` is a panic.
    unfoldable pub reconcile_application :
        AppAnswers Quantity Float → AppCluster Quantity → Option (AppRun Quantity)
    reconcile_application answers cluster = app_read answers cluster answers.get
