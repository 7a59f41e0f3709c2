-- ===== src/Deployment/Guards.antt =====
-- Which ingresses ask for a name and a token, of reconcileIngress and createIngress.
use mathlib.Core.Option
use mathlib.Core.Option.{none-ne-some, some-injective}
use primehub_controller.Prelude.{
  [], ap, str_eq, subst, Bool, Option, String, false, true, some, none, ◌≡◌, refl, sym, ◌∙◌, lookup,
  lookup-put_other, Error,
}
use primehub_controller.Kube.{ObjectKey}
use primehub_controller.Deployment.{PhDeploymentSpec, is_private_access}
use primehub_controller.Deployment.Objects.{
  Step, done, attempt, unless_error, Cluster, Faults, ModelIngress,
}
use primehub_controller.Deployment.Access.{
  AnnotationUpdate, leave, change, nil_map, found_ingress, write_ingress, Annotations, auth_type,
  auth_secret, is_guarded, created_annotations, create_ingress, update_ingress, reconcile_ingress,
  secret_name, build_ingress,
}
use primehub_controller.Deployment.Annotated.{
  IsGuardedBy, IsUpdated, KeepsSecret, basic-is_guarded, guards-lookup_secret, guards-lookup_type,
  updated_annotations-IsUpdated,
}

-- The ingress in the cluster is as it should be, or the run panicked for one without annotations.
unfoldable pub HasGuard :
    {J Q : Type 0}
    → Bool
    → String
    → ModelIngress
    → Option (Step (Cluster J Q) × Annotations)
    → Type 0
HasGuard is_private secret old none = (is_private ≡ true) × (old.annotations ≡ [])
HasGuard is_private secret old (some (step, shared)) =
    (ingress : ModelIngress) × (step.cluster.ingress ≡ some ingress)
    × IsGuardedBy is_private secret ingress.annotations

unless_error-none :
    {X : Type 0} (o : Option Error) (f : Error → X) (x : X) → o ≡ none → unless_error o f x ≡ x
unless_error-none none f x e = refl
unless_error-none (some y) f x e = absurd (none-ne-some y (sym e))

attempt-none :
    {C : Type 0} (o : Option Error) (old new : C) → o ≡ none → attempt o old new ≡ done new
attempt-none none old new e = refl
attempt-none (some y) old new e = absurd (none-ne-some y (sym e))

module _ {J Q : Type 0} (faults : Faults) (key : ObjectKey) (spec : PhDeploymentSpec) where
  write_ingress-HasGuard :
      (shared : Annotations) (cluster : Cluster J Q) (ingress : ModelIngress)
      (update : AnnotationUpdate)
      → cluster.ingress ≡ some ingress
      → faults.update_ingress ≡ none
      → IsUpdated (is_private_access spec) (secret_name key) ingress.annotations update
      → HasGuard (is_private_access spec) (secret_name key) ingress (
          Option.map {B = Step (Cluster J Q) × Annotations}
            (λ step. (step, shared))
            (write_ingress faults key spec cluster ingress update))
  unfolding HasGuard
  write_ingress-HasGuard shared cluster ingress leave found accepted h = (ingress, found, h)
  write_ingress-HasGuard shared cluster ingress nil_map found accepted h = h
  write_ingress-HasGuard shared cluster ingress (change annotations) found accepted h =
      let changed : ModelIngress = record ingress { annotations = annotations } in
      let written : Cluster J Q = record cluster { ingress = some changed } in
      (
        changed,
        ap (λ (step : Step (Cluster J Q)). step.cluster.ingress)
            (attempt-none faults.update_ingress cluster written accepted),
        h,
      )

  found_ingress-HasGuard :
      (shared : Annotations) (cluster : Cluster J Q) (ingress : ModelIngress)
      (o : Option ModelIngress)
      → faults.update_ingress ≡ none
      → cluster.ingress ≡ some ingress
      → o ≡ some ingress
      → KeepsSecret (secret_name key) ingress.annotations
      → HasGuard
          (is_private_access spec)
          (secret_name key)
          ingress
          (found_ingress faults key spec shared cluster o)
  unfolding update_ingress
  found_ingress-HasGuard shared cluster ingress none accepted found e keeps =
      absurd (none-ne-some ingress e)
  found_ingress-HasGuard shared cluster ingress (some old) accepted found e keeps =
      subst
        (λ (i : ModelIngress). HasGuard (is_private_access spec) (secret_name key) ingress (
          Option.map {B = Step (Cluster J Q) × Annotations} (λ step. (step, shared))
            (update_ingress faults key spec cluster i)))
        (sym (some-injective old ingress e))
        (write_ingress-HasGuard shared cluster ingress _ found accepted (
          updated_annotations-IsUpdated (is_private_access spec) (secret_name key)
            ingress.annotations keeps))

  -- Where the Get and the Update of the ingress succeed, and an ingress that is there already asks for no
  -- other secret than that of the deployment, reconcileIngress leaves the ingress so that it asks for the
  -- names and tokens of the secret if the access is private, and for none if it is public; it panics only
  -- for a private access and an ingress without annotations.
  pub reconcile_ingress-HasGuard :
      (shared : Annotations) (cluster : Cluster J Q) (ingress : ModelIngress)
      → faults.get_ingress ≡ none
      → faults.update_ingress ≡ none
      → cluster.ingress ≡ some ingress
      → KeepsSecret (secret_name key) ingress.annotations
      → HasGuard
          (is_private_access spec)
          (secret_name key)
          ingress
          (reconcile_ingress faults key spec shared cluster)
  unfolding reconcile_ingress
  reconcile_ingress-HasGuard shared cluster ingress readable accepted found keeps =
      subst (HasGuard (is_private_access spec) (secret_name key) ingress)
        (sym (unless_error-none faults.get_ingress _ _ readable))
        (found_ingress-HasGuard shared cluster ingress cluster.ingress accepted found found keeps)

created-private :
    (secret : String) (annotations : Annotations)
    → (lookup auth_type (created_annotations true secret annotations) ≡ some "basic")
      × (lookup auth_secret (created_annotations true secret annotations) ≡ some secret)
unfolding created_annotations
created-private secret annotations = (
  lookup-put_other auth_type "nginx.ingress.kubernetes.io/proxy-body-size" _ _ refl
      ∙ guards-lookup_type secret "Authentication Required - " _,
  lookup-put_other auth_secret "nginx.ingress.kubernetes.io/proxy-body-size" _ _ refl
      ∙ guards-lookup_secret secret "Authentication Required - " _,
)

created-public :
    (name secret : String) (annotations : Annotations)
    → str_eq "nginx.ingress.kubernetes.io/rewrite-target" name ≡ false
    → lookup name (created_annotations false secret annotations) ≡ lookup name annotations
unfolding created_annotations
created-public name secret annotations e = lookup-put_other name _ _ annotations e

-- The ingress asks for the names and tokens of a secret.
unfoldable pub AsksFor : String → Option ModelIngress → Type 0
AsksFor secret none = ⊥
AsksFor secret (some ingress) =
    (is_guarded ingress.annotations ≡ true) × (lookup auth_secret ingress.annotations ≡ some secret)

-- After createIngress of a private deployment, createIngress of a public one, which the cluster accepts,
-- builds an ingress that asks for the names and tokens of the private one.
pub create_ingress-AsksFor :
    {J Q : Type 0} (faults other_faults : Faults) (key other_key : ObjectKey)
    (spec other : PhDeploymentSpec) (shared : Annotations) (cluster other_cluster : Cluster J Q)
    → is_private_access spec ≡ true
    → is_private_access other ≡ false
    → other_faults.create_ingress ≡ none
    → AsksFor
        (secret_name key)
        (create_ingress other_faults other_key other
          (create_ingress faults key spec shared cluster).1
          other_cluster).0.cluster.ingress
unfolding create_ingress AsksFor build_ingress
create_ingress-AsksFor faults other_faults key other_key spec other shared cluster other_cluster
      is_private is_public accepted =
    let made = created-private (secret_name key) shared in
    let leaked =
      created_annotations false (secret_name other_key)
        (created_annotations true (secret_name key) shared) in
    subst (λ step. AsksFor (secret_name key) step.cluster.ingress)
      (sym (attempt-none other_faults.create_ingress other_cluster _ accepted))
      (subst
        (λ b. AsksFor (secret_name key) (
          some (
            build_ingress other_key (
              created_annotations b (secret_name other_key)
                (created_annotations (is_private_access spec) (secret_name key) shared)))))
        (sym is_public)
        (subst
          (λ b. AsksFor (secret_name key) (
            some (
              build_ingress other_key (
                created_annotations false (secret_name other_key)
                  (created_annotations b (secret_name key) shared)))))
          (sym is_private)
          (
            basic-is_guarded leaked
                (created-public auth_type (secret_name other_key) _ refl ∙ made.0),
            created-public auth_secret (secret_name other_key) _ refl ∙ made.1,
          )))
