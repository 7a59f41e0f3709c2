-- ===== src/Image/Builds.antt =====
-- What the image build controller writes, and the packages that it installs.
use mathlib.Core.Bool.{true≢false}
use primehub_controller.Image.Objects.{ImageSpecJob, Packages}
use primehub_controller.Prelude.{
  subst, ◌↔◌, none, some, already_exists, message, some, ◌∙◌, All-append, sym, message, str_eq,
  Result, Result-cases, Error, Option, ok, err, not_found, ok, ◌⊎◌, inr, inl, refl, not_found, [],
  err, ◌≢◌, Bool-cases, ap, ◌∷◌, String, keep, keep-All, true, ◌≡◌, List, All, Bool,
}
use primehub_controller.Image.Build.{
  pod_name_of, build_call, BuildRun, build_done, reconcile_image_spec_job, build_with, start_build,
  observe_pod, build_pod, update_job_status, create_pod, BuildWrite, is_legal, BuildCluster,
  BuildSettings, filter_illegal_packages,
}
use primehub_controller.Spawn.Mounts.{AllMounted}
use primehub_controller.GoText.{is_empty}
use primehub_controller.Kube.{PodStatus}
use text.Mathlib.TextEquality.{eq_iff}

abbrev pub AreLegal : Packages → Type 0
AreLegal packages =
    All (λ item. is_legal item ≡ true) packages.apt
    × All (λ item. is_legal item ≡ true) packages.conda
    × All (λ item. is_legal item ≡ true) packages.pip

keep_everything :
    {A : Type 0} (p : A → Bool) (xs : List A) → All (λ x. p x ≡ true) xs → keep p xs ≡ xs
keep_everything p [] h = refl
keep_everything p (x ∷ xs) h = rw h.0 (ap (λ rest. x ∷ rest) (keep_everything p xs h.1))

filter-same :
    (packages : Packages) → AreLegal packages → filter_illegal_packages packages ≡ packages
unfolding filter_illegal_packages
filter-same packages h i = record {
  apt = keep_everything is_legal packages.apt h.0 i;
  conda = keep_everything is_legal packages.conda h.1 i;
  pip = keep_everything is_legal packages.pip h.2 i;
}

filter-AreLegal : (packages : Packages) → AreLegal (filter_illegal_packages packages)
unfolding filter_illegal_packages
filter-AreLegal packages = (
  keep-All is_legal packages.apt,
  keep-All is_legal packages.conda,
  keep-All is_legal packages.pip,
)

-- The packages that filterIllegalPackages leaves are legal, and it leaves all exactly of legal ones.
pub filter_illegal_packages-AreLegal :
    (packages : Packages)
    → AreLegal (filter_illegal_packages packages)
      × ((filter_illegal_packages packages ≡ packages) ↔ AreLegal packages)
filter_illegal_packages-AreLegal packages = (
  filter-AreLegal packages,
  (λ e. subst AreLegal e (filter-AreLegal packages), filter-same packages),
)

module _ {Q : Type 0} (settings : BuildSettings Q) where
  -- The container that builds an image mounts only volumes of its pod.
  pub build_pod-AllMounted :
      (job : ImageSpecJob) (pod_name dockerfile : String)
      → AllMounted
          (build_pod settings job pod_name dockerfile).volumes
          (build_pod settings job pod_name dockerfile).container.volume_mounts
  unfolding build_pod
  build_pod-AllMounted job pod_name dockerfile = elim (Bool-cases (is_empty job.pull_secret)) [
    | inl public ↦ rw public (refl, (refl, (refl, tt)))
    | inr private ↦ rw private (refl, (refl, (refl, (rw (private, build_pod) refl, tt))))
  ]

  module _ (cluster : BuildCluster) (job : ImageSpecJob) where
    -- A pod is created for a job that has not succeeded and whose pod is missing, and a status is that
    -- of the job with its pod.
    abbrev pub IsSoundBuild : BuildWrite Q → Type 0
    IsSoundBuild (create_pod pod) =
        (job.phase ≢ "Succeeded") × (cluster.get_pod pod.key.name ≡ err not_found)
    IsSoundBuild (update_job_status written) =
        (job.phase ≢ "Succeeded")
        × ((written ≡ record job { pod_name = written.pod_name })
            ⊎ ((pod : String × PodStatus) × (pod_name : String) × (cluster.get_pod pod_name
                  ≡ ok pod)
                × (written ≡ observe_pod job pod.0 pod.1)))

    build_call-All :
        (e : Option Error) (writes : List (BuildWrite Q)) (rest : BuildRun Q)
        → All IsSoundBuild writes
        → All IsSoundBuild rest.writes
        → All IsSoundBuild (build_call e writes rest).writes
    build_call-All none writes rest h k = All-append IsSoundBuild writes rest.writes h k
    build_call-All (some e) writes rest h k = tt

    start_build-All :
        (pod_name : String)
        → job.phase ≢ "Succeeded"
        → cluster.get_pod pod_name ≡ err not_found
        → All IsSoundBuild (start_build settings cluster job pod_name).writes
    unfolding start_build build_pod
    start_build-All pod_name running gone = build_call-All _ [] _ tt (
        build_call-All cluster.set_reference_error [] _ tt (
          build_call-All cluster.create_error (create_pod _ ∷ []) _ ((running, gone), tt)
            (build_call-All cluster.status_error (update_job_status _ ∷ []) (build_done 10)
              ((running, inl refl), tt) tt)))

    build_with-All :
        (pod_name : String)
        → job.phase ≢ "Succeeded"
        → All IsSoundBuild (build_with settings cluster job pod_name).writes
    unfolding build_with
    build_with-All pod_name running = elim (Result-cases (cluster.get_pod pod_name)) [
      | inr (pod, there) ↦
          rw (there, build_with)
            (build_call-All cluster.status_error
              (update_job_status (observe_pod job pod.0 pod.1) ∷ []) (build_done 30)
              ((running, inr (pod, pod_name, there, refl)), tt) tt)
      | inl (not_found, gone) ↦ rw (gone, build_with) (start_build-All pod_name running gone)
      | inl (already_exists, other) ↦ rw (other, build_with) tt
      | inl (message text, other) ↦ rw (other, build_with) tt
    ]

  -- Reconcile of a build job writes nothing once the job has succeeded; it creates a pod only where the
  -- cluster has none of the name, and each status that it writes is that of the job with the name of
  -- its pod or with what a pod of the cluster shows.
  pub reconcile_image_spec_job-IsSoundBuild :
      (cluster : BuildCluster) (job : ImageSpecJob) (random : Result String)
      → cluster.get_job ≡ ok job
      → All (IsSoundBuild cluster job) (reconcile_image_spec_job settings cluster random).writes
  unfolding reconcile_image_spec_job
  reconcile_image_spec_job-IsSoundBuild cluster job random e =
      elim (Bool-cases (str_eq job.phase "Succeeded")) [
        | inl done ↦ rw (e, done, reconcile_image_spec_job) tt
        | inr running ↦
            let not_done : job.phase ≢ "Succeeded" =
              λ same. true≢false (sym ((eq_iff job.phase "Succeeded").1 same) ∙ running) in
            elim (Result-cases (pod_name_of settings cluster random job)) [
              | inl (x, unnamed) ↦ rw (e, running, unnamed, reconcile_image_spec_job) tt
              | inr (pod_name, named) ↦
                  rw (e, running, named, reconcile_image_spec_job)
                    (build_with-All cluster job pod_name not_done)
            ]
      ]
