-- ===== src/Deployment/Applied.antt =====
-- A reconciliation of the deployment that ends without an error, and the deployment of buildDeployment.
use primehub_controller.Prelude.{
  Bool, not, ◌&&◌, Option, Result, String, ℤ, false, some, none, ok, err, ◌≡◌, ◌⊎◌, refl, sym, ap,
  ◌∙◌, inl, inr, arith, Error,
}
use primehub_controller.Numeric.{Numeric}
use primehub_controller.Deployment.{Codec, PhDeploymentSpec, PhDeploymentStatus}
use primehub_controller.Deployment.Compare.{differs_refl}
use primehub_controller.Deployment.Phases.{if-Means}
use primehub_controller.Deployment.Build.{DeploymentSpec}
use primehub_controller.Deployment.Objects.{Cluster, Deployed, Faults}
use primehub_controller.Deployment.Settles.{and-right, unless_error-P}
use primehub_controller.Deployment.Update.{
  Seen, Ended, differs, need_scale_deployment, get_last_applied, set_last_applied, look_again,
  apply_changed, write_changed, update_from, update_deployment, create_deployment,
  reconcile_deployment, rebuilt, created_deployment, found_deployment,
}

module _ ⦃api : Numeric⦄ (codec : Codec) where
  open api use {Quantity}
  open codec use {Json}

  module _ (build : PhDeploymentSpec → Option (Result (DeploymentSpec Quantity)))
      (spec : PhDeploymentSpec) where
    -- A call failed, or the specification cannot be built, or the deployment that is left carries it.
    unfoldable pub IsApplied : Ended Json Quantity → Type 0
    IsApplied ended =
        ((e : Error) × (ended.error ≡ some e))
        ⊎ (((e : Error) × (build spec ≡ some (err e)))
            ⊎ ((object : Deployed Json Quantity) × (ended.cluster.deployment ≡ some object)
                × (get_last_applied codec object ≡ some spec)))

    unfoldable pub AreApplied : Option (Ended Json Quantity) → Type 0
    AreApplied none = Unit
    AreApplied (some ended) = IsApplied ended

  module _ (show : ℤ → String) (describe : Error → String) (faults : Faults)
      (build : PhDeploymentSpec → Option (Result (DeploymentSpec Quantity))) (seen : Seen)
      (has_empty : Bool) (spec : PhDeploymentSpec) (status : PhDeploymentStatus) where
    look_again-IsApplied :
        (cluster : Cluster Json Quantity) (object : Deployed Json Quantity)
        → get_last_applied codec object ≡ some spec
        → IsApplied build spec
            (look_again codec show describe faults build seen has_empty spec status cluster object)
    unfolding look_again IsApplied get_last_applied
    look_again-IsApplied cluster object now =
        unless_error-P (IsApplied build spec) faults.get_again _ _ (λ e. inl (e, refl))
          (inr (inr (record object { status = seen.status }, refl, now)))

    write_changed-IsApplied :
        (cluster : Cluster Json Quantity) (last : Option PhDeploymentSpec)
        (object : Deployed Json Quantity)
        → get_last_applied codec object ≡ last
        → IsApplied build spec (
            write_changed codec show describe faults build seen has_empty spec status cluster last
              object)
    unfolding write_changed apply_changed set_last_applied get_last_applied IsApplied
    write_changed-IsApplied cluster none object annotated =
        unless_error-P (IsApplied build spec) faults.update_deployment _ _ (λ e. inl (e, refl))
          (look_again-IsApplied _ _ (codec.unmarshal-marshal spec))
    write_changed-IsApplied cluster (some last) object annotated =
        if-Means (not has_empty && codec.deep_equal spec last) (IsApplied build spec) _ _
          (λ both.
            let equal = and-right (not has_empty) _ both in
            look_again-IsApplied cluster object
              (annotated ∙ ap some (sym ((codec.deep_equal_iff spec last).0 equal))))
          (λ changed.
            unless_error-P (IsApplied build spec) faults.update_deployment _ _ (λ e. inl (e, refl))
              (look_again-IsApplied _ _ (codec.unmarshal-marshal spec)))

    rebuilt-AreApplied :
        (cluster : Cluster Json Quantity) (last : Option PhDeploymentSpec)
        (object : Deployed Json Quantity) (r : Option (Result (DeploymentSpec Quantity)))
        → get_last_applied codec object ≡ last
        → build spec ≡ r
        → AreApplied build spec (
            rebuilt codec show describe faults build seen has_empty spec status cluster last object
              r)
    unfolding AreApplied IsApplied get_last_applied
    rebuilt-AreApplied cluster last object none annotated e = tt
    rebuilt-AreApplied cluster last object (some (err x)) annotated e = inr (inl (x, e))
    rebuilt-AreApplied cluster last object (some (ok built)) annotated e =
        write_changed-IsApplied cluster last (record object { spec = built }) annotated

    update_from-AreApplied :
        (cluster : Cluster Json Quantity) (last : Option PhDeploymentSpec)
        (object : Deployed Json Quantity)
        → get_last_applied codec object ≡ last
        → AreApplied build spec (
            update_from codec show describe faults build seen has_empty spec status cluster last
              object)
    unfolding update_from AreApplied get_last_applied
    update_from-AreApplied cluster none object annotated =
        rebuilt-AreApplied cluster none object (build spec) annotated refl
    update_from-AreApplied cluster (some last) object annotated =
        if-Means (differs spec last) (AreApplied build spec) _ _
          (λ changed. rebuilt-AreApplied cluster (some last) object (build spec) annotated refl)
          (λ unchanged.
            if-Means (need_scale_deployment spec last) (AreApplied build spec) _ _
              (λ rescaled. write_changed-IsApplied cluster (some last) _ annotated)
              (λ unscaled. write_changed-IsApplied cluster (some last) object annotated))

    created-AreApplied :
        (cluster : Cluster Json Quantity) (r : Option (Result (DeploymentSpec Quantity)))
        → build spec ≡ r
        → AreApplied build spec (
            created_deployment codec show describe faults build seen has_empty spec status cluster
              r)
    unfolding AreApplied IsApplied get_last_applied
    created-AreApplied cluster none e = tt
    created-AreApplied cluster (some (err x)) e = inr (inl (x, e))
    created-AreApplied cluster (some (ok built)) e =
        unless_error-P (IsApplied build spec) faults.create_deployment _ _ (λ x. inl (x, refl))
          (inr (inr (_, refl, codec.unmarshal-marshal spec)))

    found_deployment-AreApplied :
        (cluster : Cluster Json Quantity) (object : Option (Deployed Json Quantity))
        → AreApplied build spec (
            found_deployment codec show describe faults build seen has_empty spec status cluster
              object)
    unfolding create_deployment update_deployment
    found_deployment-AreApplied cluster (some object) =
        update_from-AreApplied cluster (get_last_applied codec object) object refl
    found_deployment-AreApplied cluster none = created-AreApplied cluster (build spec) refl

    pub reconcile_deployment-AreApplied :
        (cluster : Cluster Json Quantity)
        → AreApplied build spec (
            reconcile_deployment codec show describe faults build seen has_empty spec status
              cluster)
    unfolding reconcile_deployment AreApplied IsApplied
    reconcile_deployment-AreApplied cluster =
        unless_error-P (AreApplied build spec) faults.get_deployment _ _ (λ e. inl (e, refl))
          (found_deployment-AreApplied cluster cluster.deployment)

    -- needScaleDeployment and reflect.DeepEqual find nothing between a specification and itself.
    unscaled_refl : need_scale_deployment spec spec ≡ false
    unfolding need_scale_deployment
    unscaled_refl = ground arith

    -- A deployment that carries the specification is not written.
    pub update_deployment-idle :
        (cluster : Cluster Json Quantity) (object : Deployed Json Quantity)
        → get_last_applied codec object ≡ some spec
        → has_empty ≡ false
        → update_deployment codec show describe faults build seen has_empty spec status cluster
            object
          ≡ some (
              look_again codec show describe faults build seen has_empty spec status cluster object)
    unfolding update_deployment update_from write_changed
    update_deployment-idle cluster object annotated full =
        rw
          (
            annotated,
            differs_refl spec,
            unscaled_refl,
            full,
            (codec.deep_equal_iff spec spec).1 refl,
          )
          refl
