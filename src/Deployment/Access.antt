-- ===== src/Deployment/Access.antt =====
-- ee/controllers/phdeployment_controller.go: createIngress, updateIngress and reconcileIngress.
-- createIngress writes into the map of the settings, which all deployments share: the map is an argument,
-- and what it is afterwards a result. SetControllerReference is taken to succeed on the new ingress.
use Prim.Native.String.{◌++◌ as ◌+++◌}
use mathlib.Core.Option
use primehub_controller.Prelude.{
  Bool, List, Option, String, [], ◌∷◌, ◌&&◌, false, some, none, if◌then◌else◌, not, str_eq, lookup,
  put, put_all, remove,
}
use primehub_controller.Kube.{ObjectKey}
use primehub_controller.Deployment.{PhDeploymentSpec, is_private_access}
use primehub_controller.Deployment.Objects.{
  unless_error, Cluster, Faults, ModelIngress, Step, done, refused, attempt,
}

abbrev pub Annotations : Type 0
Annotations = List (String × String)

abbrev pub auth_type : String
auth_type = "nginx.ingress.kubernetes.io/auth-type"

abbrev pub auth_secret : String
auth_secret = "nginx.ingress.kubernetes.io/auth-secret"

abbrev pub auth_secret_type : String
auth_secret_type = "nginx.ingress.kubernetes.io/auth-secret-type"

abbrev pub auth_realm : String
auth_realm = "nginx.ingress.kubernetes.io/auth-realm"

abbrev pub snippet : String
snippet = "nginx.ingress.kubernetes.io/configuration-snippet"

-- The annotations of an ingress that asks for a name and a token.
abbrev pub guards : String → String → Annotations
guards secret realm =
    (auth_type, "basic")
    ∷ (auth_secret, secret)
    ∷ (auth_secret_type, "auth-file")
    ∷ (auth_realm, realm)
    ∷ (snippet, "proxy_set_header X-Forwarded-User $remote_user;")
    ∷ []

-- What createIngress makes of the annotations of the settings.
unfoldable pub created_annotations : Bool → String → Annotations → Annotations
created_annotations is_private secret annotations =
    let rewritten = put "nginx.ingress.kubernetes.io/rewrite-target" "/$1" annotations in
    if is_private
    then put "nginx.ingress.kubernetes.io/proxy-body-size" "10m"
        (put_all (guards secret "Authentication Required - ") rewritten)
    else rewritten

-- The comparison of an entry of the map, which is empty where it is missing.
abbrev pub has_basic : Option String → Bool
has_basic none = false
has_basic (some value) = str_eq value "basic"

unfoldable pub is_guarded : Annotations → Bool
is_guarded annotations = has_basic (lookup auth_type annotations)

abbrev pub unguarded : Annotations → Annotations
unguarded annotations = remove snippet (
    remove auth_realm (remove auth_secret_type (remove auth_secret (remove auth_type annotations))))

-- What updateIngress makes of the annotations of an ingress: it leaves them, changes them, or panics.
pub data AnnotationUpdate : Type 0 where
  leave nil_map : AnnotationUpdate
  change : Annotations → AnnotationUpdate

-- The annotations of an ingress that is to ask for a name and a token. An ingress without annotations has
-- a nil map, and the write into it is a panic.
abbrev pub guard_annotations : String → Annotations → AnnotationUpdate
guard_annotations secret [] = nil_map
guard_annotations secret (entry ∷ entries) =
    change (put_all (guards secret "Authentication Required") (entry ∷ entries))

-- The annotations that updateIngress writes.
unfoldable pub updated_annotations : Bool → String → Annotations → AnnotationUpdate
updated_annotations is_private secret annotations =
    if not is_private && is_guarded annotations
    then change (unguarded annotations)
    else if is_private && not (is_guarded annotations)
    then guard_annotations secret annotations
    else leave

-- The ingress that createIngress builds.
unfoldable pub build_ingress : ObjectKey → Annotations → ModelIngress
build_ingress key annotations = record {
  key = record { namespace = key.namespace; name = "deploy-" +++ key.name };
  annotations = annotations;
  path = "/deployment/" +++ key.name +++ "/(.+)";
  backend = "deploy-" +++ key.name;
}

abbrev pub secret_name : ObjectKey → String
secret_name key = "deploy-" +++ key.name

module _ {J Q : Type 0} (faults : Faults) (key : ObjectKey) (spec : PhDeploymentSpec) where
  -- createIngress, with the map of the settings as it leaves it.
  unfoldable pub create_ingress : Annotations → Cluster J Q → Step (Cluster J Q) × Annotations
  create_ingress shared cluster =
      let annotations = created_annotations (is_private_access spec) (secret_name key) shared in
      let step =
        attempt faults.create_ingress cluster
          (record cluster { ingress = some (build_ingress key annotations) }) in
      (step, annotations)

  abbrev pub write_ingress :
      Cluster J Q → ModelIngress → AnnotationUpdate → Option (Step (Cluster J Q))
  write_ingress cluster ingress leave = some (done cluster)
  write_ingress cluster ingress nil_map = none
  write_ingress cluster ingress (change annotations) = some (
      attempt faults.update_ingress cluster
        (record cluster { ingress = some (record ingress { annotations = annotations }) }))

  -- updateIngress; `none` is a panic.
  unfoldable pub update_ingress : Cluster J Q → ModelIngress → Option (Step (Cluster J Q))
  update_ingress cluster ingress =
      write_ingress cluster ingress
        (updated_annotations (is_private_access spec) (secret_name key) ingress.annotations)

  abbrev pub found_ingress :
      Annotations → Cluster J Q → Option ModelIngress → Option (Step (Cluster J Q) × Annotations)
  found_ingress shared cluster none = some (create_ingress shared cluster)
  found_ingress shared cluster (some ingress) =
      Option.map (λ step. (step, shared)) (update_ingress cluster ingress)

  -- reconcileIngress but for the endpoint of the status; `none` is a panic.
  unfoldable pub reconcile_ingress :
      Annotations → Cluster J Q → Option (Step (Cluster J Q) × Annotations)
  reconcile_ingress shared cluster =
      unless_error faults.get_ingress (λ e. some (refused cluster e, shared))
        (found_ingress shared cluster cluster.ingress)
