-- ===== src/Deployment/Runs.antt =====
-- What a reconciliation of the deployment promises, for the deployments of buildDeployment.
use mathlib.Core.Option.{some-injective, none-ne-some}
use primehub_controller.Prelude.{
  Bool, false, Option, Result, String, ℤ, some, none, ok, err, ◌≡◌, ◌⊎◌, refl, sym, ap, ◌∙◌, inl,
  inr, Error, subst,
}
use primehub_controller.Numeric.{Numeric}
use primehub_controller.GoText.{Casing}
use primehub_controller.Escapism.{Unicode}
use primehub_controller.Kube.{ObjectKey}
use primehub_controller.Deployment.{Codec, PhDeploymentSpec, PhDeploymentStatus}
use primehub_controller.Deployment.Compare.{differs_iff, build_key}
use primehub_controller.Deployment.Build.{
  DeploymentSpec, replicas_of, Tools, Fetched, build_deployment, from_parts, with_storage,
  build_parts, Parts, referenced, assembled,
}
use primehub_controller.Deployment.ModelVolumes.{Settings, Storage}
use primehub_controller.Deployment.Objects.{Cluster, Deployed, Faults}
use primehub_controller.Deployment.Settles.{
  HasCurrent, IsCurrent, KeepsCurrent, reconcile_deployment-Keeps,
}
use primehub_controller.Deployment.Applied.{
  IsApplied, AreApplied, reconcile_deployment-AreApplied, update_deployment-idle,
}
use primehub_controller.Deployment.Update.{
  Seen, Ended, get_last_applied, look_again, update_deployment, reconcile_deployment,
}

module _ ⦃api : Numeric⦄ (casing : Casing) (settings : Settings) (tools : Tools api.Quantity)
    (tables : Unicode) (key : ObjectKey) where
  open api use {Quantity, Float}

  -- The deployment that buildDeployment returns asks for the replicas of the specification.
  unfoldable pub Asks : PhDeploymentSpec → Option (Result (DeploymentSpec Quantity)) → Type 0
  Asks spec none = Unit
  Asks spec (some (err e)) = Unit
  Asks spec (some (ok built)) = built.replicas ≡ replicas_of spec

  with_storage-Asks :
      (spec : PhDeploymentSpec) (fetched : Fetched Float) (parts : Parts casing settings tools)
      (r : Option (Result (Storage Quantity)))
      → Asks spec (with_storage casing settings tools tables key spec fetched parts r)
  unfolding Asks assembled
  with_storage-Asks spec fetched parts none = tt
  with_storage-Asks spec fetched parts (some (err e)) = tt
  with_storage-Asks spec fetched (model, engine, spawner) (some (ok storage)) =
      referenced-Asks fetched.set_reference_error
        (assembled casing settings tools tables key spec model engine spawner storage) refl
    where
      referenced-Asks :
          (o : Option Error) (built : DeploymentSpec Quantity)
          → built.replicas ≡ replicas_of spec
          → Asks spec (some (referenced casing settings tools o built))
      referenced-Asks none built e = e
      referenced-Asks (some x) built e = tt

  from_parts-Asks :
      (spec : PhDeploymentSpec) (fetched : Fetched Float) (r : Result (Parts casing settings tools))
      → Asks spec (from_parts casing settings tools tables key spec fetched r)
  unfolding Asks
  from_parts-Asks spec fetched (err e) = tt
  from_parts-Asks spec fetched (ok parts) = with_storage-Asks spec fetched parts _

  -- The deployments that buildDeployment returns for a specification, for any answers to its calls.
  unfoldable pub IsBuilt : PhDeploymentSpec → DeploymentSpec Quantity → Type 0
  IsBuilt spec built =
      (fetched : Fetched Float) × (build_deployment casing settings tools tables key spec fetched
        ≡ some (ok built))

  built-replicas_of :
      (spec : PhDeploymentSpec) (built : DeploymentSpec Quantity)
      → IsBuilt spec built
      → built.replicas ≡ replicas_of spec
  unfolding IsBuilt build_deployment Asks
  built-replicas_of spec built (fetched, e) =
      subst (Asks spec) e
        (from_parts-Asks spec fetched (build_parts casing settings tools tables key spec fetched))

  module _ (codec : Codec) where
    open codec use {Json}

    module _ (show : ℤ → String) (describe : Error → String) (faults : Faults)
        (fetched : Fetched Float) (seen : Seen) (has_empty : Bool) (spec : PhDeploymentSpec)
        (status : PhDeploymentStatus) (cluster : Cluster Json Quantity)
        (ended : Ended Json Quantity) where
      abbrev run : Option (Ended Json Quantity)
      run =
          reconcile_deployment codec show describe faults
            (λ s. build_deployment casing settings tools tables key s fetched) seen has_empty spec
            status cluster

      -- If the deployment in the cluster, where there is one, was built by buildDeployment for what the
      -- annotation says was applied last, but for its replicas, and has the replicas that this asks for,
      -- so it is after reconcileDeployment, whichever calls fail.
      pub reconcile_deployment-HasCurrent :
          HasCurrent codec IsBuilt cluster.deployment
          → run ≡ some ended
          → HasCurrent codec IsBuilt ended.cluster.deployment
      unfolding KeepsCurrent IsBuilt
      reconcile_deployment-HasCurrent before e = subst (KeepsCurrent codec IsBuilt) e (
          reconcile_deployment-Keeps codec IsBuilt show describe faults
            (λ s. build_deployment casing settings tools tables key s fetched)
            (λ s built is_built. (fetched, is_built)) built-replicas_of seen has_empty spec status
            cluster before)

      -- What runs for a specification.
      abbrev pub RunsFor : Deployed Json Quantity → Type 0
      RunsFor object =
          (origin : PhDeploymentSpec) × (built : DeploymentSpec Quantity) × IsBuilt origin built
          × (build_key spec ≡ build_key origin)
          × (object.spec ≡ record built { replicas = replicas_of spec })

      current-RunsFor :
          (object : Deployed Json Quantity)
          → IsCurrent codec IsBuilt object
          → get_last_applied codec object ≡ some spec
          → RunsFor object
      unfolding IsCurrent
      current-RunsFor object (last, origin, built, annotated, is_built, same, is_spec) applied =
          let is_last = some-injective last spec (sym annotated ∙ applied) in
          (
            origin,
            built,
            is_built,
            ap build_key (sym is_last) ∙ (differs_iff last origin).0 same,
            is_spec ∙ ap (λ s. record built { replicas = replicas_of s }) is_last,
          )

      -- Where the deployment in the cluster, if there is one, is as reconcileDeployment leaves it, and
      -- reconcileDeployment ends without an error, then either buildDeployment refused the
      -- specification, or the cluster has a deployment that was built for a specification with the same
      -- image, pull secret, instance type, URI, and names and literal values of the variables, with the
      -- replicas that the specification asks for, none for one that is to stop.
      pub reconcile_deployment-Runs :
          HasCurrent codec IsBuilt cluster.deployment
          → run ≡ some ended
          → ended.error ≡ none
          → ((x : Error) × (build_deployment casing settings tools tables key spec fetched
                ≡ some (err x)))
            ⊎ ((object : Deployed Json Quantity) × (ended.cluster.deployment ≡ some object)
                × RunsFor object)
      unfolding AreApplied IsApplied HasCurrent
      reconcile_deployment-Runs before e no_error =
          let applied =
            subst
              (AreApplied codec (λ s. build_deployment casing settings tools tables key s fetched)
                spec)
              e
              (reconcile_deployment-AreApplied codec show describe faults
                (λ s. build_deployment casing settings tools tables key s fetched) seen has_empty
                spec status cluster) in
          let now = reconcile_deployment-HasCurrent before e in
          elim applied [
            | inl (x, failed) ↦ absurd (none-ne-some x (sym no_error ∙ failed))
            | inr (inl refused) ↦ inl refused
            | inr (inr (object, is_object, carries)) ↦ inr (
              object,
              is_object,
              current-RunsFor object (subst (HasCurrent codec IsBuilt) is_object now) carries,
            )
          ]

      -- Where reconcileDeployment ends without an error and buildDeployment does not refuse the
      -- specification, the cluster has a deployment that the next updateDeployment for it only reads,
      -- if the specification has then no list or map that is there and empty: whatever the answers are,
      -- it does not write.
      pub reconcile_deployment-settles :
          (later : Faults) (fetched_later : Fetched Float) (seen_later : Seen)
          (has_empty_later : Bool) (status_later : PhDeploymentStatus)
          (cluster_later : Cluster Json Quantity)
          → has_empty_later ≡ false
          → run ≡ some ended
          → ended.error ≡ none
          → ((x : Error) × (build_deployment casing settings tools tables key spec fetched
                ≡ some (err x)))
            ⊎ ((object : Deployed Json Quantity) × (ended.cluster.deployment ≡ some object)
                × (update_deployment codec show describe later
                      (λ s. build_deployment casing settings tools tables key s fetched_later)
                      seen_later
                      has_empty_later
                      spec
                      status_later
                      cluster_later
                      object
                    ≡ some (
                        look_again codec show describe later
                          (λ s. build_deployment casing settings tools tables key s fetched_later)
                          seen_later
                          has_empty_later
                          spec
                          status_later
                          cluster_later
                          object)))
      unfolding AreApplied IsApplied
      reconcile_deployment-settles later fetched_later seen_later has_empty_later status_later
            cluster_later full e no_error =
          let applied =
            subst
              (AreApplied codec (λ s. build_deployment casing settings tools tables key s fetched)
                spec)
              e
              (reconcile_deployment-AreApplied codec show describe faults
                (λ s. build_deployment casing settings tools tables key s fetched) seen has_empty
                spec status cluster) in
          elim applied [
            | inl (x, failed) ↦ absurd (none-ne-some x (sym no_error ∙ failed))
            | inr (inl refused) ↦ inl refused
            | inr (inr (object, is_object, carries)) ↦ inr (
              object,
              is_object,
              update_deployment-idle codec show describe later
                  (λ s. build_deployment casing settings tools tables key s fetched_later)
                  seen_later has_empty_later spec status_later cluster_later object carries full,
            )
          ]
