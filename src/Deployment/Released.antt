-- ===== src/Deployment/Released.antt =====
-- What Reconcile leaves of a deployment whose group does not allow it.
use mathlib.Core.Option.{none-ne-some}
use primehub_controller.Prelude.{
  Bool, List, Option, Result, String, ℤ, true, false, some, none, ok, err, Error, ◌≡◌, refl, sym,
  subst,
}
use primehub_controller.Numeric.{Numeric}
use primehub_controller.Kube.{ObjectKey}
use primehub_controller.Spawn.{EnvVar}
use primehub_controller.Deployment.{Codec, PhDeployment, PhDeploymentSpec, PhDeploymentStatus}
use primehub_controller.Deployment.Build.{DeploymentSpec}
use primehub_controller.Deployment.Objects.{
  Cluster, Faults, kept, release_resources, delete_deployment, delete_service, delete_ingress,
  delete_secret,
}
use primehub_controller.Deployment.Access.{Annotations}
use primehub_controller.Deployment.Reconcile.{
  read_again, Answers, Course, Reconciled, group_not_found, reconcile_for_group, reconcile_found,
  prepared, settle, settled,
}
use primehub_controller.Deployment.Phases.{if-Means}
use primehub_controller.Deployment.Settles.{unless_error-P}

kept-none : {A : Type 0} (o : Option Error) (object : Option A) → o ≡ none → kept o object ≡ none
kept-none none object e = refl
kept-none (some y) object e = absurd (none-ne-some y (sym e))

gone : {A : Type 0} (o : Option Error) (object : Option A) → object ≡ none → kept o object ≡ none
gone none object e = refl
gone (some y) object e = e

-- Where the calls of releaseResources succeed, the deployment, the ingress and the secret are gone, and
-- the service is left.
release_resources_lem :
    {J Q : Type 0} (faults : Faults) (cluster : Cluster J Q)
    → faults.delete_deployment ≡ none
    → faults.delete_ingress ≡ none
    → faults.delete_secret ≡ none
    → ((release_resources faults cluster).deployment ≡ none)
      × ((release_resources faults cluster).ingress ≡ none)
      × ((release_resources faults cluster).secret ≡ none)
      × ((release_resources faults cluster).service ≡ cluster.service)
unfolding release_resources delete_deployment delete_service delete_ingress delete_secret
release_resources_lem faults cluster no_deployment no_ingress no_secret = (
  gone faults.delete_service _ (kept-none faults.delete_deployment _ no_deployment),
  kept-none faults.delete_ingress cluster.ingress no_ingress,
  kept-none faults.delete_secret cluster.secret no_secret,
  refl,
)

module _ ⦃api : Numeric⦄ (codec : Codec) (show : ℤ → String) (describe : Error → String)
    (same_status : PhDeploymentStatus → PhDeploymentStatus → Bool)
    (sort_env : List EnvVar → List EnvVar) (primehub_url : String)
    (build : ObjectKey → PhDeploymentSpec → Option (Result (DeploymentSpec api.Quantity))) where
  open api use {Quantity}
  open codec use {Json}

  -- The group does not allow model deployments, or it is gone.
  abbrev pub IsForbidden : Result Bool → Type 0
  IsForbidden (ok true) = ⊥
  IsForbidden (ok false) = Unit
  IsForbidden (err e) = describe e ≡ group_not_found

  -- Nothing of the deployment is left but its service.
  abbrev pub IsReleased : Cluster Json Quantity → Cluster Json Quantity → Type 0
  IsReleased before after =
      (after.deployment ≡ none)
      × (after.ingress ≡ none)
      × (after.secret ≡ none)
      × (after.service ≡ before.service)

  unfoldable ReleasesCourse : Cluster Json Quantity → Option (Course Json Quantity) → Type 0
  ReleasesCourse before none = ⊥
  ReleasesCourse before (some course) = IsReleased before course.cluster × (course.error ≡ none)

  unfoldable pub Releases : Cluster Json Quantity → Option (Reconciled Json Quantity) → Type 0
  Releases before none = ⊥
  Releases before (some run) = IsReleased before run.cluster

  read_again-cluster :
      (answers : Answers) (course : Course Json Quantity) (r : Result PhDeployment)
      → (read_again codec show describe same_status sort_env primehub_url build answers course
          r).cluster
        ≡ course.cluster
  read_again-cluster answers course (err e) = refl
  read_again-cluster answers course (ok current) =
      if-Means (same_status current.status course.status)
        (λ (run : Reconciled Json Quantity). run.cluster ≡ course.cluster) _ _ (λ same. refl)
        (λ changed.
          unless_error-P (λ (run : Reconciled Json Quantity). run.cluster ≡ course.cluster)
            answers.update_status_error _ _ (λ e. refl) refl)

  settle-cluster :
      (answers : Answers) (course : Course Json Quantity) (o : Option Error)
      → (settle codec show describe same_status sort_env primehub_url build answers course
          o).cluster
        ≡ course.cluster
  unfolding settle
  settle-cluster answers course (some e) = refl
  settle-cluster answers course none = read_again-cluster answers course answers.get_to_update

  module _ (answers : Answers) (shared : Annotations) (cluster : Cluster Json Quantity)
      (deployment : PhDeployment) (no_deployment : answers.faults.delete_deployment ≡ none)
      (no_ingress : answers.faults.delete_ingress ≡ none)
      (no_secret : answers.faults.delete_secret ≡ none) where
    reconcile_for_group-Releases :
        (r : Result Bool)
        → IsForbidden r
        → ReleasesCourse cluster (
            reconcile_for_group codec show describe same_status sort_env primehub_url build answers
              deployment shared cluster r)
    unfolding reconcile_for_group ReleasesCourse
    reconcile_for_group-Releases (ok true) forbidden = elim forbidden [ ]
    reconcile_for_group-Releases (ok false) forbidden =
        (release_resources_lem answers.faults cluster no_deployment no_ingress no_secret, refl)
    reconcile_for_group-Releases (err e) forbidden =
        rw forbidden
          (release_resources_lem answers.faults cluster no_deployment no_ingress no_secret, refl)

    settled-Releases :
        (o : Option (Course Json Quantity))
        → ReleasesCourse cluster o
        → Releases cluster
            (settled codec show describe same_status sort_env primehub_url build answers o)
    unfolding ReleasesCourse Releases
    settled-Releases none h = h
    settled-Releases (some course) h =
        subst (IsReleased cluster) (sym (settle-cluster answers course course.error)) h.0

  -- Where the group of a PhDeployment that the Get finds is gone or does not allow model deployments, and
  -- the cluster accepts the deletions, Reconcile does not panic, the deployment, the ingress and the
  -- secret are gone after it, and the service is left as it was.
  pub reconcile_found-Releases :
      (answers : Answers) (shared : Annotations) (cluster : Cluster Json Quantity)
      (deployment : PhDeployment)
      → IsForbidden answers.group_enabled
      → answers.faults.delete_deployment ≡ none
      → answers.faults.delete_ingress ≡ none
      → answers.faults.delete_secret ≡ none
      → Releases cluster (
          reconcile_found codec show describe same_status sort_env primehub_url build answers shared
            cluster deployment)
  unfolding reconcile_found
  reconcile_found-Releases answers shared cluster deployment forbidden no_deployment no_ingress
        no_secret =
      settled-Releases answers shared cluster
        (prepared codec show describe same_status sort_env primehub_url build answers.now
          deployment)
        no_deployment no_ingress no_secret _
        (reconcile_for_group-Releases answers shared cluster
          (prepared codec show describe same_status sort_env primehub_url build answers.now
            deployment)
          no_deployment no_ingress no_secret answers.group_enabled forbidden)
