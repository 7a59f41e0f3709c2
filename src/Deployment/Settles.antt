-- ===== src/Deployment/Settles.antt =====
-- The deployment in the cluster is one that was built for what was applied last.
use mathlib.Core.Bool.{false≢true}
use primehub_controller.Prelude.{
  Bool, not, ◌&&◌, if◌then◌else◌, Bool, Option, Result, String, ℤ, false, true, some, none, ok, err,
  ◌≡◌, refl, sym, ap, ◌∙◌, Error, subst,
}
use primehub_controller.Numeric.{Numeric}
use primehub_controller.Deployment.{Codec, PhDeploymentSpec, PhDeploymentStatus}
use primehub_controller.Deployment.Compare.{differs_refl, differs_trans, unscaled-replicas_of}
use primehub_controller.Deployment.Phases.{if-Means}
use primehub_controller.Deployment.Build.{DeploymentSpec, replicas_of}
use primehub_controller.Deployment.Objects.{Cluster, Deployed, Faults, unless_error}
use primehub_controller.Deployment.Update.{
  created_deployment, found_deployment, rebuilt, Seen, Ended, differs, need_scale_deployment,
  get_last_applied, set_last_applied, look_again, apply_changed, write_changed, update_from,
  update_deployment, create_deployment, reconcile_deployment,
}

pub unless_error-P :
    {X : Type 0} (P : X → Type 0) (o : Option Error) (f : Error → X) (x : X)
    → ((e : Error) → P (f e))
    → P x
    → P (unless_error o f x)
unless_error-P P none f x h k = k
unless_error-P P (some e) f x h k = h e

pub and-right : (a b : Bool) → (a && b) ≡ true → b ≡ true
and-right true b e = e
and-right false b e = absurd (false≢true e)

module _ ⦃api : Numeric⦄ (codec : Codec)
    (IsBuild : PhDeploymentSpec → DeploymentSpec api.Quantity → Type 0) where
  open api use {Quantity}
  open codec use {Json}

  -- The deployment carries the specification that was applied last; it is one that was built for a
  -- specification with the same image, secret, instance type, URI and variables, with the replicas that
  -- the applied one asks for.
  unfoldable pub IsCurrent : Deployed Json Quantity → Type 0
  IsCurrent object =
      (last : PhDeploymentSpec) × (origin : PhDeploymentSpec) × (built : DeploymentSpec Quantity)
      × (get_last_applied codec object ≡ some last)
      × IsBuild origin built
      × (differs last origin ≡ false)
      × (object.spec ≡ record built { replicas = replicas_of last })

  unfoldable pub HasCurrent : Option (Deployed Json Quantity) → Type 0
  HasCurrent none = Unit
  HasCurrent (some object) = IsCurrent object

  -- What is left holds a deployment that is current.
  unfoldable pub KeepsCurrent : Option (Ended Json Quantity) → Type 0
  KeepsCurrent none = Unit
  KeepsCurrent (some ended) = HasCurrent ended.cluster.deployment

  module _ (show : ℤ → String) (describe : Error → String) (faults : Faults)
      (build : PhDeploymentSpec → Option (Result (DeploymentSpec Quantity)))
      (is_build : (s : PhDeploymentSpec) (built : DeploymentSpec Quantity)
        → build s ≡ some (ok built)
        → IsBuild s built)
      (asks : (s : PhDeploymentSpec) (built : DeploymentSpec Quantity)
        → IsBuild s built
        → built.replicas ≡ replicas_of s)
      (seen : Seen) (has_empty : Bool) (spec : PhDeploymentSpec) (status : PhDeploymentStatus) where
    abbrev Keeps : Ended Json Quantity → Type 0
    Keeps ended = HasCurrent ended.cluster.deployment

    look_again-Keeps :
        (cluster : Cluster Json Quantity) (object : Deployed Json Quantity)
        → HasCurrent cluster.deployment
        → IsCurrent object
        → Keeps
            (look_again codec show describe faults build seen has_empty spec status cluster object)
    unfolding look_again HasCurrent IsCurrent get_last_applied
    look_again-Keeps cluster object before now =
        unless_error-P Keeps faults.get_again _ _ (λ e. before) now

    apply_changed-Keeps :
        (cluster : Cluster Json Quantity) (object : Deployed Json Quantity)
        (origin : PhDeploymentSpec) (built : DeploymentSpec Quantity)
        → HasCurrent cluster.deployment
        → IsBuild origin built
        → differs spec origin ≡ false
        → object.spec ≡ record built { replicas = replicas_of spec }
        → Keeps (
            apply_changed codec show describe faults build seen has_empty spec status cluster
              object)
    unfolding apply_changed HasCurrent IsCurrent get_last_applied set_last_applied
    apply_changed-Keeps cluster object origin built before is_built same is_spec =
        let now : IsCurrent (set_last_applied codec spec object) =
          (spec, origin, built, codec.unmarshal-marshal spec, is_built, same, is_spec) in
        unless_error-P Keeps faults.update_deployment _ _ (λ e. before)
          (look_again-Keeps _ (set_last_applied codec spec object) now now)

    -- The write of a deployment that is what its specification asks for.
    write_changed-Keeps :
        (cluster : Cluster Json Quantity) (last : Option PhDeploymentSpec)
        (object : Deployed Json Quantity) (origin : PhDeploymentSpec)
        (built : DeploymentSpec Quantity)
        → HasCurrent cluster.deployment
        → get_last_applied codec object ≡ last
        → IsBuild origin built
        → differs spec origin ≡ false
        → object.spec ≡ record built { replicas = replicas_of spec }
        → Keeps (
            write_changed codec show describe faults build seen has_empty spec status cluster last
              object)
    unfolding write_changed HasCurrent IsCurrent
    write_changed-Keeps cluster none object origin built before annotated is_built same is_spec =
        apply_changed-Keeps cluster object origin built before is_built same is_spec
    write_changed-Keeps cluster (some last) object origin built before annotated is_built same
          is_spec =
        if-Means (not has_empty && codec.deep_equal spec last) Keeps _ _
          (λ both.
            let equal = and-right (not has_empty) _ both in
            let is_last = (codec.deep_equal_iff spec last).0 equal in
            look_again-Keeps cluster object before
              (spec, origin, built, annotated ∙ ap some (sym is_last), is_built, same, is_spec))
          (λ changed. apply_changed-Keeps cluster object origin built before is_built same is_spec)

    abbrev replicas_kept :
        (built : DeploymentSpec Quantity)
        → IsBuild spec built
        → built ≡ record built { replicas = replicas_of spec }
    replicas_kept built is_built =
        ap (λ n. record built { replicas = n }) (asks spec built is_built)

    rebuilt-Keeps :
        (cluster : Cluster Json Quantity) (object : Deployed Json Quantity)
        (last : Option PhDeploymentSpec) (r : Option (Result (DeploymentSpec Quantity)))
        → HasCurrent cluster.deployment
        → get_last_applied codec object ≡ last
        → build spec ≡ r
        → KeepsCurrent (
            rebuilt codec show describe faults build seen has_empty spec status cluster last object
              r)
    unfolding KeepsCurrent HasCurrent IsCurrent get_last_applied
    rebuilt-Keeps cluster object last none before annotated e = tt
    rebuilt-Keeps cluster object last (some (err x)) before annotated e = before
    rebuilt-Keeps cluster object last (some (ok built)) before annotated e =
        let is_built = is_build spec built e in
        write_changed-Keeps cluster last (record object { spec = built }) spec built before
          annotated is_built (differs_refl spec) (replicas_kept built is_built)

    if-Keeps :
        (b : Bool) (x y : Option (Ended Json Quantity))
        → (b ≡ true → KeepsCurrent x)
        → (b ≡ false → KeepsCurrent y)
        → KeepsCurrent (if b then x else y)
    if-Keeps b x y = if-Means b KeepsCurrent x y

    update_from-Keeps :
        (cluster : Cluster Json Quantity) (object : Deployed Json Quantity)
        → HasCurrent cluster.deployment
        → IsCurrent object
        → KeepsCurrent (
            update_deployment codec show describe faults build seen has_empty spec status cluster
              object)
    unfolding update_deployment update_from KeepsCurrent HasCurrent IsCurrent get_last_applied
    update_from-Keeps cluster object before
          (last, origin, built, annotated, is_built, same, is_spec) =
        subst
          (λ o. KeepsCurrent (
            update_from codec show describe faults build seen has_empty spec status cluster o
              object))
          (sym annotated)
          (if-Keeps (differs spec last) _ _
            (λ changed. rebuilt-Keeps cluster object (some last) (build spec) before annotated refl)
            (λ unchanged.
              let alike = differs_trans spec last origin unchanged same in
              if-Keeps (need_scale_deployment spec last) _ _
                (λ rescaled.
                  write_changed-Keeps cluster (some last) _ origin built before annotated is_built
                    alike (rw is_spec refl))
                (λ unscaled.
                  write_changed-Keeps cluster (some last) object origin built before annotated
                    is_built alike
                    (is_spec
                      ∙ ap (λ n. record built { replicas = n })
                          (unscaled-replicas_of spec last unscaled)))))

    created_deployment-Keeps :
        (cluster : Cluster Json Quantity) (r : Option (Result (DeploymentSpec Quantity)))
        → HasCurrent cluster.deployment
        → build spec ≡ r
        → KeepsCurrent (
            created_deployment codec show describe faults build seen has_empty spec status cluster
              r)
    unfolding KeepsCurrent HasCurrent IsCurrent get_last_applied
    created_deployment-Keeps cluster none before e = tt
    created_deployment-Keeps cluster (some (err x)) before e = before
    created_deployment-Keeps cluster (some (ok built)) before e =
        let is_built = is_build spec built e in
        unless_error-P Keeps faults.create_deployment _ _ (λ x. before)
          (
            spec,
            spec,
            built,
            codec.unmarshal-marshal spec,
            is_built,
            differs_refl spec,
            replicas_kept built is_built,
          )

    found_deployment-Keeps :
        (cluster : Cluster Json Quantity) (object : Option (Deployed Json Quantity))
        → HasCurrent cluster.deployment
        → HasCurrent object
        → KeepsCurrent (
            found_deployment codec show describe faults build seen has_empty spec status cluster
              object)
    unfolding create_deployment HasCurrent
    found_deployment-Keeps cluster none before now =
        created_deployment-Keeps cluster (build spec) before refl
    found_deployment-Keeps cluster (some object) before now =
        update_from-Keeps cluster object before now

    pub reconcile_deployment-Keeps :
        (cluster : Cluster Json Quantity)
        → HasCurrent cluster.deployment
        → KeepsCurrent (
            reconcile_deployment codec show describe faults build seen has_empty spec status
              cluster)
    unfolding reconcile_deployment KeepsCurrent
    reconcile_deployment-Keeps cluster before =
        unless_error-P KeepsCurrent faults.get_deployment _ _ (λ e. before)
          (found_deployment-Keeps cluster cluster.deployment before before)
