-- ===== src/Image/Build.antt =====
-- controllers/imagespecjob_controller.go: the pod that builds and pushes a custom image.
use Prim.Native.String.{◌++◌ as ◌+++◌}
use primehub_controller.Prelude.{
  ◌==◌, str_eq, ◌||◌, ok, ◌>>=◌, ◌&&◌, false, none, true, not, leb, if◌then◌else◌, ◌∷◌, err, some,
  ℤ, [], ◌++◌, keep, Bool, Option, Error, Result, List, String, ℕ,
}
use primehub_controller.Image.Objects.{target_image_url, ImageSpecJob, Packages}
use primehub_controller.Kube.{Terminated, PodStatus, ObjectKey}
use primehub_controller.Numeric.{ResourceList}
use primehub_controller.Spawn.{
  config_map, secret, empty_dir, no_container, literal, Volume, EnvVar, Container, VolumeMount,
}
use primehub_controller.GoText.{all_codes, is_empty}
use primehub_controller.JobStatus.{is_not_found}
use primehub_controller.Image.Spec.{same_time}
use primehub_controller.Spawn.Volumes.{at_path}

-- [a-zA-Z0-9-_:=\.]
abbrev pub is_package_char : ℕ → Bool
is_package_char c =
    (leb 97 c && leb c 122)
    || (leb 65 c && leb c 90)
    || (leb 48 c && leb c 58)
    || c == 45
    || c == 95
    || c == 61
    || c == 46

unfoldable pub is_legal : String → Bool
is_legal item = not (is_empty item) && all_codes is_package_char item

-- func filterIllegalPackages
unfoldable pub filter_illegal_packages : Packages → Packages
filter_illegal_packages packages = record {
  apt = keep is_legal packages.apt;
  conda = keep is_legal packages.conda;
  pip = keep is_legal packages.pip;
}

abbrev each : String → String → List String → String
each before behind [] = ""
each before behind (item ∷ packages) = before +++ item +++ behind +++ each before behind packages

-- {{ if packages }} first, the packages, last {{ end }}
abbrev section : String → String → String → String → List String → String
section first before behind last [] = ""
section first before behind last (item ∷ packages) =
    first +++ each before behind (item ∷ packages) +++ last

-- func generateDockerfile, the template with its trimmed white space.
unfoldable pub generate_dockerfile : ImageSpecJob → String
generate_dockerfile job =
    let packages = filter_illegal_packages job.packages in
    "FROM "
    +++ job.base_image
    +++ "\n\nUSER root\n"
    +++ section "\nRUN apt-get update && \\\n    apt-get install -y --no-install-recommends \\"
        "\n      " " \\" "\n      && \\\n    apt-get purge && apt-get clean\n" packages.apt
    +++ "\n\n"
    +++ section "\nRUN conda install --quiet --yes \\" "\n      " " \\"
        "\n      && \\\n    conda clean --all -f -y\n" packages.conda
    +++ "\n\n"
    +++ section "\nRUN pip install --no-cache-dir" " " "" "\n" packages.pip

-- The settings customImage.buildJob and insecureSkipVerify, with the amounts that they parse as.
pub record BuildSettings (Q : Type 0) : Type 0 where
  pub repository : String
  pub tag : String
  pub requests : ResourceList Q
  pub limits : ResourceList Q
  pub insecure_skip_verify : String
  pub ephemeral_storage : Q

abbrev read_only_mount : String → String → VolumeMount
read_only_mount name mount_path = record {
  mount_path = mount_path;
  name = name;
  sub_path = "";
  read_only = true;
}

-- The pod of buildPod: its metadata, its container and its volumes. The container is privileged and
-- the pod is never restarted.
pub record BuildPod (Q : Type 0) : Type 0 where
  pub key : ObjectKey
  pub annotations : List (String × String)
  pub labels : List (String × String)
  pub container : Container Q
  pub volumes : List (Volume Q)

module _ {Q : Type 0} (settings : BuildSettings Q) where
  abbrev env : String → String → EnvVar
  env name value = record { name = name; value = literal value }

  abbrev build_container : ImageSpecJob → String → Container Q
  build_container job dockerfile = record no_container {
    name = "build-and-push";
    image = settings.repository +++ ":" +++ settings.tag;
    command = "/bin/sh" ∷ "/scripts/build-and-push.sh" ∷ [];
    env =
        env "DOCKERFILE" dockerfile
        ∷ env "BASE_IMAGE" job.base_image
        ∷ env "TARGET_IMAGE" (target_image_url job)
        ∷ env "SKIP_TLS_VERIFY" settings.insecure_skip_verify
        ∷ [];
    volume_mounts =
        at_path "/var/lib/containers" "varlibcontainers"
        ∷ read_only_mount "scripts" "/scripts"
        ∷ read_only_mount "push-secret" "/push-secret"
        ∷ [];
    requests = settings.requests;
    limits = settings.limits;
  }

  -- The volume and the mount of the pull secret.
  abbrev pull_volumes : String → List (Volume Q)
  pull_volumes pull_secret =
      if is_empty pull_secret
      then []
      else record { name = "pull-secret"; source = secret pull_secret } ∷ []

  abbrev pull_mounts : String → List VolumeMount
  pull_mounts pull_secret =
      if is_empty pull_secret then [] else read_only_mount "pull-secret" "/pull-secret" ∷ []

  -- func buildPod
  unfoldable pub build_pod : ImageSpecJob → String → String → BuildPod Q
  build_pod job pod_name dockerfile =
      let container = build_container job dockerfile in
      record {
        key = record { namespace = job.key.namespace; name = pod_name };
        annotations = job.annotations;
        labels = job.labels;
        container = record container {
          volume_mounts = container.volume_mounts ++ pull_mounts job.pull_secret;
        };
        volumes =
            record { name = "varlibcontainers"; source = empty_dir settings.ephemeral_storage }
            ∷ record {
              name = "scripts";
              source = config_map "primehub-controller-custom-image-scripts" none;
            }
            ∷ record { name = "push-secret"; source = secret job.push_secret }
            ∷ pull_volumes job.pull_secret;
      }

-- What a Reconcile writes, its RequeueAfter in seconds and its error.
pub data BuildWrite (Q : Type 0) : Type 0 where
  create_pod : BuildPod Q → BuildWrite Q
  update_job_status : ImageSpecJob → BuildWrite Q

pub record BuildRun (Q : Type 0) : Type 0 where
  pub writes : List (BuildWrite Q)
  pub requeue_after : ℕ
  pub error : Option Error

-- The answers of the cluster. `get_pod` is the answer for a name, and of a found pod its status.
pub record BuildCluster : Type 0 where
  pub get_job : Result ImageSpecJob
  pub get_pod : String → Result (String × PodStatus)
  pub pull_secret_error : Option Error
  pub set_reference_error : Option Error
  pub create_error : Option Error
  pub status_error : Option Error

module _ {Q : Type 0} where
  abbrev pub build_failed : Error → BuildRun Q
  build_failed e = record { writes = []; requeue_after = 0; error = some e }

  abbrev pub build_done : ℕ → BuildRun Q
  build_done seconds = record { writes = []; requeue_after = seconds; error = none }

  abbrev pub build_call : Option Error → List (BuildWrite Q) → BuildRun Q → BuildRun Q
  build_call (some e) writes rest = build_failed e
  build_call none writes rest = record {
    writes = writes ++ rest.writes;
    requeue_after = rest.requeue_after;
    error = rest.error;
  }

abbrev first_finish : List (Option Terminated) → Option ℤ
first_finish (some terminated ∷ statuses) = terminated.finished_at
first_finish _ = none

abbrev or_time : Option ℤ → Option ℤ → Option ℤ
or_time (some t) before = some t
or_time none before = before

-- pod.Status.StartTime != nil && !pod.Status.StartTime.Equal(job.Status.StartTime)
abbrev restarted : Option ℤ → Option ℤ → Bool
restarted none before = false
restarted (some t) before = not (same_time (some t) before)

-- The status of a job whose pod is there.
unfoldable pub observe_pod : ImageSpecJob → String → PodStatus → ImageSpecJob
observe_pod job phase status =
    let again = restarted status.start_time job.start_time in
    record job {
      phase = phase;
      start_time = if again then status.start_time else job.start_time;
      finish_time =
          or_time (first_finish status.container_statuses)
            (if again then none else job.finish_time);
    }

module _ {Q : Type 0} (settings : BuildSettings Q) (cluster : BuildCluster) where
  -- The pod of a job that has none.
  unfoldable pub start_build : ImageSpecJob → String → BuildRun Q
  start_build job pod_name =
      build_call (if is_empty job.pull_secret then none else cluster.pull_secret_error) [] (
        build_call cluster.set_reference_error [] (
          build_call cluster.create_error
            (create_pod (build_pod settings job pod_name (generate_dockerfile job)) ∷ [])
            (build_call cluster.status_error
              (update_job_status (record job { pod_name = pod_name }) ∷ []) (build_done 10))))

  unfoldable pub build_with : ImageSpecJob → String → BuildRun Q
  build_with job pod_name = elim (cluster.get_pod pod_name) [
    | err e ↦ if is_not_found e then start_build job pod_name else build_failed e
    | ok pod ↦
        build_call cluster.status_error (update_job_status (observe_pod job pod.0 pod.1) ∷ [])
          (build_done 30)
  ]

  -- The name that the job has stored, or a new one of a random text, which may not be had.
  unfoldable pub pod_name_of : Result String → ImageSpecJob → Result String
  pod_name_of random job =
      if is_empty job.pod_name
      then (random >>= λ hash. ok ("image-" +++ job.key.name +++ "-" +++ hash))
      else ok job.pod_name

  -- func (r *ImageSpecJobReconciler) Reconcile
  unfoldable pub reconcile_image_spec_job : Result String → BuildRun Q
  reconcile_image_spec_job random = elim cluster.get_job [
    | err e ↦ if is_not_found e then build_done 0 else build_failed e
    | ok job ↦
        if str_eq job.phase "Succeeded" then build_done 0 else elim (pod_name_of random job) [
          | err e ↦ build_failed e
          | ok pod_name ↦ build_with job pod_name
        ]
  ]
