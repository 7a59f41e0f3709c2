-- ===== src/Application/Deploys.antt =====
-- The deployment that Reconcile of an application leaves, and the errors that it does not report.
use Prim.Native.String.{◌++◌ as ◌+++◌}
use mathlib.Core.Option.{none-ne-some, some-injective}
use primehub_controller.Prelude.{
  List, Option, Result, String, [], ◌∷◌, some, none, ok, err, ◌≡◌, ◌⊎◌, refl, sym, ap, ◌∙◌, subst,
  inl, inr, Error, if◌then◌else◌, pos,
}
use primehub_controller.Numeric.{Numeric}
use primehub_controller.GoText.{Casing}
use primehub_controller.Escapism.{Unicode, escape_to_primehub_label}
use primehub_controller.Graphql.{UserGroup, DtoDataset}
use primehub_controller.Spawn.{Spawner}
use primehub_controller.Spawn.Build.{PodSpec, patch_pod_spec}
use primehub_controller.Spawn.Mounts.{IsClosed}
use primehub_controller.Spawn.AppSpawners.{new_spawner_for_ph_application-IsClosed}
use primehub_controller.Airgap.{apply_air_gap_image_prefix}
use primehub_controller.Deployment.Settles.{unless_error-P}
use primehub_controller.Deployment.Objects.{Step}
use primehub_controller.Application.Objects.{PhApplication, AppDeployment, Labels}
use primehub_controller.Application.{
  AppFetched, AppSettings, generate_deployment_spec, generate_from, generated, spawned, labels_of,
  app_name, group_label,
}
use primehub_controller.Application.Status.{verdict}
use primehub_controller.Application.Reconcile.{
  app_read, reconcile_app_service, or_earlier, AppCluster, AppFaults, AppAnswers, AppRun,
  reconcile_network_policy, reconcile_app_deployment, reconcile_application, write_deployment,
  app_rest, app_published, after_service, after_policies,
}
use primehub_controller.Quota.{DtoInstanceType}
use primehub_controller.Application.Templates.{
  apply_air_gap-IsClosed, apply_air_gap-empty, new_spawner_for_ph_application-panics,
}

module _ ⦃api : Numeric⦄ (tables : Unicode) (casing : Casing)
    (range : List (String × DtoDataset) → List (String × DtoDataset)) (megabyte : api.Quantity)
    (settings : AppSettings api.Quantity) (marshal_map : List (String × String) → String) where
  open api use {Quantity, Float}

  module _ (app : PhApplication Quantity) where
    -- A deployment for the application: its pod mounts only its volumes, it has one replica or none, and
    -- its pods are labelled with the application and its group.
    unfoldable pub IsFor : Option (AppDeployment Quantity) → Type 0
    IsFor none = ⊥
    IsFor (some deployment) =
        IsClosed deployment.pod
        × (deployment.replicas ≡ (if app.spec.stop then pos 0 else pos 1))
        × (deployment.template_labels
            ≡ ("app", "primehub-app")
              ∷ ("primehub.io/phapplication", "app-" +++ app.key.name)
              ∷ ("primehub.io/group", escape_to_primehub_label tables app.spec.group_name)
              ∷ [])

    unfoldable AreFor : Option (Result (AppDeployment Quantity)) → Type 0
    AreFor none = app.spec.pod_template.containers ≡ []
    AreFor (some (err e)) = Unit
    AreFor (some (ok deployment)) = IsFor (some deployment)

    spawned-AreFor :
        (annotations : Labels) (pod : PodSpec Quantity) (o : Option (Spawner Quantity))
        → ((spawner : Spawner Quantity) → o ≡ some spawner → IsClosed (patch_pod_spec spawner pod))
        → (o ≡ none → app.spec.pod_template.containers ≡ [])
        → AreFor (spawned tables casing range megabyte settings marshal_map app annotations pod o)
    unfolding AreFor IsFor generated labels_of app_name group_label
    spawned-AreFor annotations pod none closed empty = empty refl
    spawned-AreFor annotations pod (some spawner) closed empty = (closed spawner refl, refl, refl)

    generate_from-AreFor :
        (annotations : Labels) (instance_type : Result (DtoInstanceType Float))
        (group : Result (UserGroup Float)) (datasets : Result (List DtoDataset))
        → IsClosed app.spec.pod_template
        → AreFor (
            generate_from tables casing range megabyte settings marshal_map app annotations
              instance_type group datasets)
    unfolding generate_from AreFor
    generate_from-AreFor annotations (err e) group datasets h = tt
    generate_from-AreFor annotations (ok instance_type) (err e) datasets h = tt
    generate_from-AreFor annotations (ok instance_type) (ok group) (err e) h = tt
    generate_from-AreFor annotations (ok instance_type) (ok group) (ok datasets) h =
        let pod = apply_air_gap_image_prefix settings.image_prefix app.spec.pod_template in
        spawned-AreFor annotations pod _
          (λ spawner e.
            new_spawner_for_ph_application-IsClosed casing range megabyte settings.five_gibibytes
              app.key.name settings.primehub_url group instance_type datasets pod app.spec.app_root
              settings.options spawner pod e
              (apply_air_gap-IsClosed settings.image_prefix app.spec.pod_template h))
          (λ e. apply_air_gap-empty settings.image_prefix app.spec.pod_template (
            new_spawner_for_ph_application-panics casing range megabyte settings.five_gibibytes
              app.key.name settings.primehub_url group instance_type datasets pod app.spec.app_root
              settings.options e))

    -- A reconciliation that failed, or that left a deployment for the application, or that panicked for
    -- a template without containers.
    unfoldable pub LeavesApp : Option (Step (AppCluster Quantity)) → Type 0
    LeavesApp none = app.spec.pod_template.containers ≡ []
    LeavesApp (some step) = ((e : Error) × (step.error ≡ some e)) ⊎ IsFor step.cluster.deployment

    write_deployment-LeavesApp :
        (cluster : AppCluster Quantity) (fault : Option Error)
        (o : Option (Result (AppDeployment Quantity)))
        → AreFor o
        → LeavesApp
            (write_deployment tables casing range megabyte settings marshal_map cluster fault o)
    unfolding AreFor LeavesApp
    write_deployment-LeavesApp cluster fault none h = h
    write_deployment-LeavesApp cluster fault (some (err e)) h = inl (e, refl)
    write_deployment-LeavesApp cluster none (some (ok deployment)) h = inr h
    write_deployment-LeavesApp cluster (some x) (some (ok deployment)) h = inl (x, refl)

    -- Where the containers of the template of an application mount only its volumes, reconcileDeployment
    -- fails with an error, or the cluster has a deployment after it whose containers mount only volumes of
    -- the pod, with no replica for an application that is to stop and one for another, and whose pods are
    -- labelled with the name of the application and the escaped name of its group; it panics only for a
    -- template without containers.
    pub reconcile_app_deployment-LeavesApp :
        (faults : AppFaults) (fetched : AppFetched Float) (cluster : AppCluster Quantity)
        → IsClosed app.spec.pod_template
        → LeavesApp (
            reconcile_app_deployment tables casing range megabyte settings marshal_map faults app
              fetched cluster)
    unfolding reconcile_app_deployment generate_deployment_spec LeavesApp
    reconcile_app_deployment-LeavesApp faults fetched cluster closed =
        unless_error-P LeavesApp faults.get_deployment _ _ (λ e. inl (e, refl))
          (write_deployment-LeavesApp cluster _ _ (
            generate_from-AreFor _ fetched.instance_type fetched.group fetched.global_datasets
              closed))

  -- A run that does not panic ends without an error, and without asking for another call.
  unfoldable pub Forgets : Option (AppRun Quantity) → Type 0
  Forgets none = Unit
  Forgets (some run) = (run.error ≡ none) × (run.requeue_after ≡ 0)

  module _ (describe : Error → String) (answers : AppAnswers Quantity Float) where
    app_published-Forgets :
        (app : PhApplication Quantity) (cluster : AppCluster Quantity) (error : Option Error)
        (e : Error)
        → error ≡ some e
        → Forgets (
            app_published tables casing range megabyte settings marshal_map describe answers app
              cluster
              (verdict describe error app.spec.stop answers.status answers.pods))
    unfolding Forgets verdict
    app_published-Forgets app cluster none e h = absurd (none-ne-some e h)
    app_published-Forgets app cluster (some x) e h =
        unless_error-P (λ (run : AppRun Quantity). (run.error ≡ none) × (run.requeue_after ≡ 0))
          answers.update_status_error _ _ (λ y. (refl, refl)) (refl, refl)

    or_earlier-some :
        (later earlier : Option Error) (e : Error)
        → earlier ≡ some e
        → (x : Error) × (or_earlier later earlier ≡ some x)
    or_earlier-some none earlier e h = (e, h)
    or_earlier-some (some x) earlier e h = (x, refl)

    after_policies-Forgets :
        (app : PhApplication Quantity) (earlier : Option Error) (e : Error)
        (o : Option (Step (AppCluster Quantity)))
        → earlier ≡ some e
        → Forgets (
            after_policies tables casing range megabyte settings marshal_map describe answers app
              earlier o)
    unfolding Forgets
    after_policies-Forgets app earlier e none h = tt
    after_policies-Forgets app earlier e (some third) h =
        let last = or_earlier-some third.error earlier e h in
        app_published-Forgets app third.cluster _ last.0 last.1

    after_service-Forgets :
        (app : PhApplication Quantity) (earlier : Option Error) (e : Error)
        (o : Option (Step (AppCluster Quantity)))
        → earlier ≡ some e
        → Forgets (
            after_service tables casing range megabyte settings marshal_map describe answers app
              earlier o)
    unfolding Forgets
    after_service-Forgets app earlier e none h = tt
    after_service-Forgets app earlier e (some second) h =
        let last = or_earlier-some second.error earlier e h in
        after_policies-Forgets app _ last.0
          (reconcile_network_policy tables answers.faults app second.cluster) last.1

    app_rest-Forgets :
        (app : PhApplication Quantity) (o : Option (Step (AppCluster Quantity)))
        (step : Step (AppCluster Quantity)) (e : Error)
        → o ≡ some step
        → step.error ≡ some e
        → Forgets
            (app_rest tables casing range megabyte settings marshal_map describe answers app o)
    app_rest-Forgets app none step e h failed = absurd (none-ne-some step h)
    app_rest-Forgets app (some first) step e h failed =
        let is_first : first.error ≡ some e =
          ap (λ (s : Step (AppCluster Quantity)). s.error) (some-injective first step h) ∙ failed in
        after_service-Forgets app first.error e
          (reconcile_app_service tables answers.faults app first.cluster) is_first

    -- Where the Get finds the application and the reconciliation of its deployment fails with an error,
    -- Reconcile, unless it panics, returns no error and asks for no other call.
    pub reconcile_application-Forgets :
        (app : PhApplication Quantity) (cluster : AppCluster Quantity)
        (step : Step (AppCluster Quantity)) (e : Error)
        → answers.get ≡ ok app
        → reconcile_app_deployment tables casing range megabyte settings marshal_map answers.faults
            app answers.fetched cluster
          ≡ some step
        → step.error ≡ some e
        → Forgets (
            reconcile_application tables casing range megabyte settings marshal_map describe answers
              cluster)
    unfolding reconcile_application
    reconcile_application-Forgets app cluster step e found ran failed =
        subst
          (λ r.
            Forgets (
              app_read tables casing range megabyte settings marshal_map describe answers cluster
                r))
          (sym found) (app_rest-Forgets app _ step e ran failed)
