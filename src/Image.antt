-- ===== src/Image.antt =====
-- controllers/image_controller.go: the build jobs of custom images, with the types of
-- api/v1alpha1/image_types.go, imagespec_types.go and imagespecjob_types.go. The answers of the cluster
-- are arguments, and a Reconcile is the writes that the cluster accepts.
pub mod Objects
pub mod Spec
pub mod Build
pub mod Actions
pub mod Follows
pub mod Builds
pub mod Times
mod Samples
use Prim.Native.String.{◌++◌ as ◌+++◌}
use primehub_controller.Prelude.{
  false, ok, message, ◌++◌, err, str_eq, ◌∷◌, some, ◌&&◌, not, none, if◌then◌else◌, ℤ, Error,
  Result, Option, Bool, [], String, List,
}
use primehub_controller.Kube.{ObjectKey}
use primehub_controller.GoText.{join, is_empty}
use primehub_controller.GoTime.{after}
use primehub_controller.JobStatus.{is_not_found}
use primehub_controller.Image.Objects.{Image, ImageSpecJob, Packages, no_job, target_image_url}

-- The settings customImage.pushSecretName, pushRepo and pushRepoPrefix, and the first eight hexadecimal
-- digits of the SHA-1 of a text.
pub record Builder : Type 0 where
  pub push_secret_name : String
  pub push_repo : String
  pub push_repo_prefix : String
  pub short_sha1 : String → String

abbrev part : String → List String → List String
part name [] = []
part name (item ∷ packages) = (name +++ ":[" +++ join "," (item ∷ packages) +++ "]") ∷ []

-- func computeHash
unfoldable pub compute_hash : Builder → String → Packages → String
compute_hash builder base_image packages = builder.short_sha1 (
    join ";" (
      base_image
      ∷ (part "apt" packages.apt ++ (part "pip" packages.pip ++ part "conda" packages.conda))))

unfoldable pub target_image : Builder → String → String → String
target_image builder name hash =
    if is_empty builder.push_repo
    then name +++ ":" +++ hash
    else builder.push_repo +++ ":" +++ name +++ "-" +++ hash

unfoldable pub repo_prefix : Builder → String
repo_prefix builder = if is_empty builder.push_repo then builder.push_repo_prefix else ""

-- type ImageSpecJobAction; `unknown` is that of an image without an image spec.
pub data Action : Type 0 where
  unknown create skip : Action
  cancel rebuild update : ImageSpecJob → Action

-- func isImageCustomBuild
abbrev pub is_image_custom_build : Image → Bool
is_image_custom_build image = not (is_empty image.base_image)

-- imageUpdateTime != nil && imageSpecJobUpdateTime != nil && imageUpdateTime.After(imageSpecJobUpdateTime)
abbrev pub is_newer : Option ℤ → Option ℤ → Bool
is_newer (some t) (some u) = after t u
is_newer _ _ = false

-- The choice of makeImageControllerAction for a job that the Get did not report as missing.
unfoldable pub action_for : Image → ImageSpecJob → Action
action_for image job =
    if image.cancel && not (str_eq image.condition.phase "Cancelled")
    then cancel job
    else if is_newer image.update_time job.update_time
    then rebuild job
    else update job

-- func makeImageControllerAction, for the answer of the Get. An error other than a missing job leaves
-- the job empty.
unfoldable pub make_image_controller_action : Image → Result ImageSpecJob → Action
make_image_controller_action image found =
    if is_empty image.base_image then unknown else elim found [
      | ok job ↦ action_for image job
      | err e ↦
          if is_not_found e
          then (if image.cancel then skip else create)
          else action_for image no_job
    ]

-- What a Reconcile writes, and the error of its result.
pub data Write : Type 0 where
  create_job : ImageSpecJob → Write
  delete_job : ImageSpecJob → Write
  update_image : Image → Write

pub record Run : Type 0 where
  pub writes : List Write
  pub error : Option Error

abbrev pub finished : Run
finished = record { writes = []; error = none }

abbrev pub failed : Error → Run
failed e = record { writes = []; error = some e }

-- A call of the cluster, and what follows if it accepts the call.
abbrev pub call : Option Error → List Write → Run → Run
call (some e) writes rest = failed e
call none writes rest = record { writes = writes ++ rest.writes; error = rest.error }

-- The answers of the cluster to the calls of one Reconcile.
pub record Cluster : Type 0 where
  pub get_image : Result Image
  pub get_job : Result ImageSpecJob
  pub delete_error : Option Error
  pub set_reference_error : Option Error
  pub create_error : Option Error
  pub update_error : Option Error

abbrev pub with_cancelled : Image → Image
with_cancelled image = record image { condition = record image.condition { phase = "Cancelled" } }

-- The image of updateImageStatus for its job.
unfoldable pub with_job : Image → ImageSpecJob → Image
with_job image job =
    let url = target_image_url job in
    let seen = record image.condition { job_name = job.key.name; phase = job.phase } in
    if str_eq job.phase "Succeeded"
    then record image {
      condition = record seen { image = url };
      url = url;
      url_for_gpu = url;
      pull_secret = job.push_secret;
    }
    else record image { condition = seen }

-- A result without the error, which Reconcile drops for cancel and rebuild.
abbrev pub without_error : Run → Run
without_error run = record { writes = run.writes; error = none }

module _ (builder : Builder) (now : ℤ) where
  -- The job that createImageSpecJob builds.
  unfoldable pub image_spec_job : Image → ImageSpecJob
  image_spec_job image =
      let hash = compute_hash builder image.base_image image.packages in
      record no_job {
        key = image.key;
        annotations = ("image.primehub.io/hash", hash) ∷ [];
        labels = ("image.primehub.io/name", image.key.name) ∷ ("app", "primehub-image") ∷ [];
        base_image = image.base_image;
        pull_secret = image.build_pull_secret;
        packages = image.packages;
        target_image = target_image builder image.key.name hash;
        push_secret = builder.push_secret_name;
        repo_prefix = repo_prefix builder;
        update_time = elim image.update_time [ some t ↦ some t | none ↦ some now ];
      }

  module _ (cluster : Cluster) where
    -- func createImageSpecJob
    unfoldable pub create_image_spec_job : Image → Run
    create_image_spec_job image =
        if is_image_custom_build image
        then call cluster.set_reference_error []
            (call cluster.create_error (create_job (image_spec_job image) ∷ []) finished)
        else failed (message "createImageSpecJob do not provide correct image")

    -- func cancelImageSpecJob
    unfoldable pub cancel_image_spec_job : Image → ImageSpecJob → Run
    cancel_image_spec_job image job =
        if is_image_custom_build image
        then call cluster.delete_error (delete_job job ∷ [])
            (call cluster.update_error (update_image (with_cancelled image) ∷ []) finished)
        else failed (message "cancelImageSpecJob do not provide correct image")

    -- func rebuildImageSpecJob
    unfoldable pub rebuild_image_spec_job : Image → ImageSpecJob → Run
    rebuild_image_spec_job image job =
        if is_image_custom_build image
        then call cluster.delete_error (delete_job job ∷ []) (create_image_spec_job image)
        else failed (message "rebuildImageSpecJob do not provide correct image")

    -- func updateImageStatus
    unfoldable pub update_image_status : Image → ImageSpecJob → Run
    update_image_status image job =
        if is_image_custom_build image
        then (if image.cancel && not (str_eq image.condition.phase "Cancelled")
            then call cluster.update_error (update_image (with_cancelled image) ∷ []) finished
            else call cluster.update_error (update_image (with_job image job) ∷ []) finished)
        else failed (message "updateImage do not provide correct image")

    -- The switch of Reconcile.
    unfoldable pub act : Image → Action → Run
    act image create = create_image_spec_job image
    act image (cancel job) = without_error (cancel_image_spec_job image job)
    act image (rebuild job) = without_error (rebuild_image_spec_job image job)
    act image (update job) = update_image_status image job
    act image skip = finished
    act image unknown = finished

    -- An image without a base image takes no action.
    unfoldable pub reconcile_fetched : Image → Run
    reconcile_fetched image =
        if is_empty image.base_image
        then finished
        else act image (make_image_controller_action image cluster.get_job)

    -- func (r *ImageReconciler) Reconcile
    unfoldable pub reconcile_image : Run
    reconcile_image = elim cluster.get_image [
      | err e ↦ if is_not_found e then finished else failed e
      | ok image ↦ reconcile_fetched image
    ]
