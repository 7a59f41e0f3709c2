-- ===== src/Application.antt =====
-- controllers/phapplication_controller.go and api/v1alpha1/phapplication_types.go: the objects of an
-- application. The rest of a specification that the controller does not read is left out.
pub mod Objects
pub mod Status
pub mod Reconcile
pub mod Reasons
pub mod Phases
pub mod Policies
pub mod Templates
pub mod Deploys
mod Samples
use Prim.Native.String.{◌++◌ as ◌+++◌}
use mathlib.Core.Option
use primehub_controller.Prelude.{
  Bool, List, Option, Result, String, ℤ, [], ◌∷◌, false, true, some, none, ok, err, if◌then◌else◌,
  Error, pos, put,
}
use primehub_controller.Numeric.{Numeric}
use primehub_controller.GoText.{Casing}
use primehub_controller.Escapism.{Unicode, escape_to_primehub_label}
use primehub_controller.Kube.{ObjectKey}
use primehub_controller.Airgap.{apply_air_gap_image_prefix}
use primehub_controller.Graphql.{UserGroup, DtoDataset}
use primehub_controller.Quota.{DtoInstanceType}
use primehub_controller.Spawn.{SpawnerOptions, Spawner}
use primehub_controller.Spawn.Build.{PodSpec, patch_pod_spec}
use primehub_controller.Spawn.Constructors.{new_spawner_for_ph_application}
use primehub_controller.Application.Objects.{
  AppDeployment, AppService, IngressRule, Labels, NetworkPolicy, PhApplication, PhApplicationSpec,
  PolicyKind, put_in_read, group_policy, policy_name, policy_ports, proxy_policy,
}

-- PhApplication.AppName
unfoldable pub app_name : ObjectKey → String
app_name key = "app-" +++ key.name

abbrev pub app_key : ObjectKey → ObjectKey
app_key key = record { namespace = key.namespace; name = app_name key }

module _ (tables : Unicode) where
  -- PhApplication.GroupName
  unfoldable pub group_label : {Q : Type 0} → PhApplicationSpec Q → String
  group_label spec = escape_to_primehub_label tables spec.group_name

  unfoldable pub labels_of : {Q : Type 0} → PhApplication Q → Labels
  labels_of app =
      ("app", "primehub-app")
      ∷ ("primehub.io/phapplication", app_name app.key)
      ∷ ("primehub.io/group", group_label app.spec)
      ∷ []

  -- PhApplication.GroupNetworkPolicyIngressRule and ProxyNetworkPolicyIngressRule
  unfoldable pub ingress_rules : {Q : Type 0} → PolicyKind → PhApplicationSpec Q → List IngressRule
  ingress_rules group_policy spec =
      record {
        ports = policy_ports spec.ports;
        peers = (("primehub.io/group", group_label spec) ∷ []) ∷ [];
      }
      ∷ []
  ingress_rules proxy_policy spec =
      record {
        ports = policy_ports spec.ports;
        peers =
            (("app.kubernetes.io/name", "primehub-console") ∷ [])
            ∷ (("app.kubernetes.io/name", "primehub-graphql") ∷ [])
            ∷ [];
      }
      ∷ []

  -- The network policy that createNetworkPolicy builds.
  unfoldable pub built_policy : {Q : Type 0} → PolicyKind → PhApplication Q → NetworkPolicy
  built_policy kind app = record {
    key = record {
      namespace = app.key.namespace;
      name = app_name app.key +++ "-" +++ policy_name kind;
    };
    labels = labels_of app;
    pod_selector = ("primehub.io/phapplication", app_name app.key) ∷ [];
    ingress = ingress_rules kind app.spec;
  }

  -- The network policy that updateNetworkPolicy writes; `none` is the panic of one without labels.
  unfoldable pub updated_policy :
      {Q : Type 0} → PolicyKind → PhApplication Q → NetworkPolicy → Option NetworkPolicy
  updated_policy kind app policy =
      Option.map
        (λ labels. record policy { labels = labels; ingress = ingress_rules kind app.spec })
        (put_in_read "primehub.io/group" (group_label app.spec) policy.labels)

  -- The service that createService builds.
  unfoldable pub built_service : {Q : Type 0} → PhApplication Q → AppService
  built_service app = record {
    key = app_key app.key;
    labels = labels_of app;
    selector = ("primehub.io/phapplication", app_name app.key) ∷ [];
    ports = app.spec.ports;
  }

  -- The service that updateService writes; `none` is the panic of one without labels.
  unfoldable pub updated_service : {Q : Type 0} → PhApplication Q → AppService → Option AppService
  updated_service app service =
      Option.map (λ labels. record service { labels = labels; ports = app.spec.ports })
        (put_in_read "primehub.io/group" (group_label app.spec) service.labels)

-- The answers of the cache.
pub record AppFetched (F : Type 0) : Type 0 where
  pub instance_type : Result (DtoInstanceType F)
  pub group : Result (UserGroup F)
  pub global_datasets : Result (List DtoDataset)

-- The settings of the reconciler; `five_gibibytes` is resource.MustParse("5Gi").
pub record AppSettings (Q : Type 0) : Type 0 where
  pub options : SpawnerOptions Q
  pub primehub_url : String
  pub image_prefix : String
  pub five_gibibytes : Q

module _ ⦃api : Numeric⦄ (tables : Unicode) (casing : Casing)
    (range : List (String × DtoDataset) → List (String × DtoDataset)) (megabyte : api.Quantity)
    (settings : AppSettings api.Quantity) (marshal_map : List (String × String) → String) where
  open api use {Quantity, Float}

  -- func buildUsageAnnotation
  unfoldable pub usage_annotation : PhApplication Quantity → String
  usage_annotation app = marshal_map (
      ("component", "app")
      ∷ ("component_name", app.key.name)
      ∷ ("instance_type", app.spec.instance_type)
      ∷ ("group", app.spec.group_name)
      ∷ [])

  -- generateDeploymentSpec for a spawner; the annotations are those that the deployment had.
  unfoldable pub generated :
      PhApplication Quantity → Labels → PodSpec Quantity → Spawner Quantity → AppDeployment Quantity
  generated app annotations pod spawner = record {
    key = app_key app.key;
    labels = labels_of tables app;
    replicas = if app.spec.stop then pos 0 else pos 1;
    selector = ("primehub.io/phapplication", app_name app.key) ∷ [];
    template_labels = labels_of tables app;
    annotations = put "primehub.io/usage" (usage_annotation app) annotations;
    pod = patch_pod_spec spawner pod;
  }

  abbrev pub spawned :
      PhApplication Quantity
      → Labels
      → PodSpec Quantity
      → Option (Spawner Quantity)
      → Option (Result (AppDeployment Quantity))
  spawned app annotations pod none = none
  spawned app annotations pod (some spawner) = some (ok (generated app annotations pod spawner))

  abbrev pub app_spawner_for :
      PhApplication Quantity
      → UserGroup Float
      → DtoInstanceType Float
      → List DtoDataset
      → PodSpec Quantity
      → Option (Spawner Quantity)
  app_spawner_for app group instance_type datasets pod =
      new_spawner_for_ph_application casing range megabyte settings.five_gibibytes app.key.name
        settings.primehub_url group instance_type datasets pod app.spec.app_root settings.options

  -- generateDeploymentSpec for the answers of the cache.
  unfoldable pub generate_from :
      PhApplication Quantity
      → Labels
      → Result (DtoInstanceType Float)
      → Result (UserGroup Float)
      → Result (List DtoDataset)
      → Option (Result (AppDeployment Quantity))
  generate_from app annotations (err e) group datasets = some (err e)
  generate_from app annotations (ok instance_type) (err e) datasets = some (err e)
  generate_from app annotations (ok instance_type) (ok group) (err e) = some (err e)
  generate_from app annotations (ok instance_type) (ok group) (ok datasets) =
      let pod = apply_air_gap_image_prefix settings.image_prefix app.spec.pod_template in
      spawned app annotations pod (app_spawner_for app group instance_type datasets pod)

  -- generateDeploymentSpec; `none` is the panic of a template without containers.
  unfoldable pub generate_deployment_spec :
      PhApplication Quantity → Labels → AppFetched Float → Option (Result (AppDeployment Quantity))
  generate_deployment_spec app annotations fetched =
      generate_from app annotations fetched.instance_type fetched.group fetched.global_datasets
