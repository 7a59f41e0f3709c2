-- ===== src/Image/Samples.antt =====
-- An image with packages, its build job, and the answers of the cluster.
use primehub_controller.Image.Objects.{ImageSpecJob, Image, Packages}
use primehub_controller.Image.{Cluster, image_spec_job, reconcile_image, Builder}
use primehub_controller.Prelude.{
  length, refl, not_found, err, false, [], none, ℤ, ◌≡◌, pos, ok, some, ◌∷◌, All, Result,
}
use primehub_controller.Image.Builds.{reconcile_image_spec_job-IsSoundBuild, IsSoundBuild}
use primehub_controller.Image.Build.{
  start_build, build_with, pod_name_of, is_legal, reconcile_image_spec_job, BuildCluster,
  BuildSettings, filter_illegal_packages,
}
use primehub_controller.Image.Spec.{SpecCluster, ImageSpec}
use primehub_controller.Image.Actions.{reconcile_image-IsSound, IsSound}
use primehub_controller.GoText.{all_codes}

abbrev builder : Builder
builder = record {
  push_secret_name = "push";
  push_repo = "registry/hub";
  push_repo_prefix = "";
  short_sha1 = λ text. "0a1b2c3d";
}

abbrev packages : Packages
packages = record { apt = "curl" ∷ "vim; rm" ∷ []; pip = "numpy==1.0" ∷ []; conda = [] }

abbrev image : Image
image = record {
  key = record { namespace = "hub"; name = "tools" };
  url = "";
  url_for_gpu = "";
  pull_secret = "";
  base_image = "ubuntu";
  build_pull_secret = "private";
  packages = packages;
  update_time = some (pos 1000000000);
  cancel = false;
  condition = record { phase = "Running"; job_name = "tools"; image = "" };
}

abbrev done_job : ImageSpecJob
done_job = record (image_spec_job builder (pos 0) image) { phase = "Succeeded" }

abbrev cluster : Result ImageSpecJob → Cluster
cluster found = record {
  get_image = ok image;
  get_job = found;
  delete_error = none;
  set_reference_error = none;
  create_error = none;
  update_error = none;
}

reconcile_image-IsSound_example :
    All
      (IsSound builder (pos 0) image (ok done_job))
      (reconcile_image builder (pos 0) (cluster (ok done_job))).writes
reconcile_image-IsSound_example =
    reconcile_image-IsSound builder (pos 0) (cluster (ok done_job)) image refl

filtered : filter_illegal_packages packages ≡ record packages { apt = "curl" ∷ [] }
unfolding filter_illegal_packages is_legal all_codes
filtered = refl

abbrev settings : BuildSettings ℤ
settings = record {
  repository = "hub/builder";
  tag = "v1";
  requests = [];
  limits = [];
  insecure_skip_verify = "false";
  ephemeral_storage = pos 30;
}

abbrev build_cluster : BuildCluster
build_cluster = record {
  get_job = ok (image_spec_job builder (pos 0) image);
  get_pod = λ name. err not_found;
  pull_secret_error = none;
  set_reference_error = none;
  create_error = none;
  status_error = none;
}

reconcile_image_spec_job-IsSoundBuild_example :
    All
      (IsSoundBuild settings build_cluster (image_spec_job builder (pos 0) image))
      (reconcile_image_spec_job settings build_cluster (ok "abcd")).writes
reconcile_image_spec_job-IsSoundBuild_example =
    reconcile_image_spec_job-IsSoundBuild settings build_cluster
      (image_spec_job builder (pos 0) image) (ok "abcd") refl

-- The call creates a pod and stores its name.
build_starts : length (reconcile_image_spec_job settings build_cluster (ok "abcd")).writes ≡ 2
unfolding reconcile_image_spec_job pod_name_of build_with start_build image_spec_job
build_starts = refl

abbrev spec : ImageSpec
spec = record {
  key = record { namespace = "hub"; name = "tools" };
  base_image = "ubuntu";
  pull_secret = "";
  packages = packages;
  update_time = none;
  status = record { phase = ""; job_name = ""; image = "" };
}

abbrev spec_cluster : SpecCluster
spec_cluster = record {
  push_secret_error = none;
  get_spec = ok spec;
  fill_error = none;
  round_error = none;
  get_job = err not_found;
  set_reference_error = none;
  create_error = none;
  delete_error = none;
  status_error = none;
}
