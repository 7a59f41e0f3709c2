-- ===== src/Image/Objects.antt =====
-- api/v1alpha1/image_types.go and imagespecjob_types.go, and the URL of what a job builds.
use Prim.Native.String.{◌++◌ as ◌+++◌}
use primehub_controller.Prelude.{none, if◌then◌else◌, ℤ, Option, Bool, [], String, List}
use primehub_controller.Kube.{ObjectKey}
use primehub_controller.GoText.{is_empty}

-- type ImageSpecSpecPackages
pub record Packages : Type 0 where
  pub apt : List String
  pub pip : List String
  pub conda : List String

-- type ImageSpecStatus, which is the job condition of an image too.
pub record BuildStatus : Type 0 where
  pub phase : String
  pub job_name : String
  pub image : String

-- type Image with its ImageCrdSpec and ImageCrdSpecImageSpec. A nil update time is `none`.
pub record Image : Type 0 where
  pub key : ObjectKey
  pub url : String
  pub url_for_gpu : String
  pub pull_secret : String
  pub base_image : String
  pub build_pull_secret : String
  pub packages : Packages
  pub update_time : Option ℤ
  pub cancel : Bool
  pub condition : BuildStatus

-- type ImageSpecJob with its ImageSpecJobSpec and ImageSpecJobStatus.
pub record ImageSpecJob : Type 0 where
  pub key : ObjectKey
  pub annotations : List (String × String)
  pub labels : List (String × String)
  pub base_image : String
  pub pull_secret : String
  pub packages : Packages
  pub target_image : String
  pub push_secret : String
  pub repo_prefix : String
  pub update_time : Option ℤ
  pub phase : String
  pub start_time : Option ℤ
  pub finish_time : Option ℤ
  pub pod_name : String

-- A zero ImageSpecJob, which a failed Get leaves.
abbrev pub no_job : ImageSpecJob
no_job = record {
  key = record { namespace = ""; name = "" };
  annotations = [];
  labels = [];
  base_image = "";
  pull_secret = "";
  packages = record { apt = []; pip = []; conda = [] };
  target_image = "";
  push_secret = "";
  repo_prefix = "";
  update_time = none;
  phase = "";
  start_time = none;
  finish_time = none;
  pod_name = "";
}

-- func (imageSpecJob *ImageSpecJob) TargetImageURL
unfoldable pub target_image_url : ImageSpecJob → String
target_image_url job =
    if is_empty job.repo_prefix
    then job.target_image
    else job.repo_prefix +++ "/" +++ job.target_image
