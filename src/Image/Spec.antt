-- ===== src/Image/Spec.antt =====
-- controllers/imagespec_controller.go: the build jobs of the older image specifications.
use Prim.Native.String.{◌++◌ as ◌+++◌}
use primehub_controller.Kube.{ObjectKey}
use primehub_controller.Prelude.{
  ◌&&◌, ◌+◌, negsuc, ltb_ℤ, not, ◌*◌, false, ◌∷◌, str_eq, ◌++◌, true, ◌/◌, if◌then◌else◌, err, ok,
  pos, Result, some, none, Bool, String, Error, [], List, Option, ℤ,
}
use primehub_controller.Image.Objects.{
  target_image_url, BuildStatus, no_job, Packages, ImageSpecJob,
}
use primehub_controller.Image.{repo_prefix, compute_hash, target_image, Builder}
use primehub_controller.JobStatus.{is_not_found}

-- type ImageSpec with its ImageSpecSpec. A zero update time is `none`.
pub record ImageSpec : Type 0 where
  pub key : ObjectKey
  pub base_image : String
  pub pull_secret : String
  pub packages : Packages
  pub update_time : Option ℤ
  pub status : BuildStatus

-- t.Rfc3339Copy(): the second that the time lies in.
unfoldable pub rfc3339_copy : ℤ → ℤ
rfc3339_copy (pos n) = pos (n / 1000000000 * 1000000000)
rfc3339_copy (negsuc n) = negsuc (n / 1000000000 * 1000000000 + 999999999)

-- t.Equal(u) of two pointers.
unfoldable pub same_time : Option ℤ → Option ℤ → Bool
same_time none none = true
same_time (some t) (some u) = not (ltb_ℤ t u) && not (ltb_ℤ u t)
same_time _ _ = false

-- func buildImageSpecJob
unfoldable pub build_image_spec_job : Builder → ImageSpec → String → ImageSpecJob
build_image_spec_job builder spec hash = record no_job {
  key = record { namespace = spec.key.namespace; name = spec.key.name +++ "-" +++ hash };
  annotations = ("imagespecs.primehub.io/hash", hash) ∷ [];
  labels = ("imagespecs.primehub.io/name", spec.key.name) ∷ ("app", "primehub-custom-image") ∷ [];
  base_image = spec.base_image;
  pull_secret = spec.pull_secret;
  packages = spec.packages;
  target_image = target_image builder spec.key.name hash;
  push_secret = builder.push_secret_name;
  repo_prefix = repo_prefix builder;
  update_time = spec.update_time;
}

pub data SpecWrite : Type 0 where
  create_job : ImageSpecJob → SpecWrite
  delete_job : ImageSpecJob → SpecWrite
  update_spec : ImageSpec → SpecWrite
  update_spec_status : ImageSpec → SpecWrite

pub record SpecRun : Type 0 where
  pub writes : List SpecWrite
  pub error : Option Error

abbrev spec_call : Option Error → List SpecWrite → SpecRun → SpecRun
spec_call (some e) writes rest = record { writes = []; error = some e }
spec_call none writes rest = record { writes = writes ++ rest.writes; error = rest.error }

abbrev spec_done : SpecRun
spec_done = record { writes = []; error = none }

abbrev spec_failed : Error → SpecRun
spec_failed e = record { writes = []; error = some e }

-- The answers of the cluster. The two updates of the specification may be answered differently.
pub record SpecCluster : Type 0 where
  pub push_secret_error : Option Error
  pub get_spec : Result ImageSpec
  pub fill_error : Option Error
  pub round_error : Option Error
  pub get_job : Result ImageSpecJob
  pub set_reference_error : Option Error
  pub create_error : Option Error
  pub delete_error : Option Error
  pub status_error : Option Error

module _ (builder : Builder) (now : ℤ) (cluster : SpecCluster) where
  -- The status that a job gives to its specification.
  unfoldable pub spec_with_job : ImageSpec → ImageSpecJob → ImageSpec
  spec_with_job spec job =
      let seen = record spec.status { job_name = job.key.name; phase = job.phase } in
      record spec {
        status =
            if str_eq job.phase "Succeeded"
            then record seen { image = target_image_url job }
            else seen;
      }

  -- A job of another update time is deleted, one of the same time gives its status.
  unfoldable pub follow_job : ImageSpec → ImageSpecJob → SpecRun
  follow_job spec job =
      if same_time job.update_time spec.update_time
      then spec_call cluster.status_error (update_spec_status (spec_with_job spec job) ∷ [])
          spec_done
      else record {
        writes = elim cluster.delete_error [ none ↦ delete_job job ∷ [] | some _ ↦ [] ];
        error = none;
      }

  -- The job is looked up once the update time of the specification is settled; a new job has the
  -- specification as it was read.
  unfoldable pub sync_job : ImageSpec → ImageSpec → SpecRun
  sync_job read spec = elim cluster.get_job [
    | ok job ↦ follow_job spec job
    | err e ↦
        if is_not_found e
        then spec_call cluster.set_reference_error [] (
            spec_call cluster.create_error
              (create_job (
                  build_image_spec_job builder read
                    (compute_hash builder read.base_image read.packages))
                ∷ [])
              spec_done)
        else spec_failed e
  ]

  abbrev fill_time : Option ℤ → ℤ
  fill_time (some t) = t
  fill_time none = now

  abbrev fills : Option ℤ → Bool
  fills (some t) = false
  fills none = true

  unfoldable pub settle_time : ImageSpec → SpecRun
  settle_time spec =
      let filled = record spec { update_time = some (fill_time spec.update_time) } in
      let time = rfc3339_copy (fill_time spec.update_time) in
      let rounded = record spec { update_time = some time } in
      let round =
        if same_time (some (fill_time spec.update_time)) (some time)
        then sync_job spec filled
        else spec_call cluster.round_error (update_spec rounded ∷ []) (sync_job spec rounded) in
      if fills spec.update_time
      then spec_call cluster.fill_error (update_spec filled ∷ []) round
      else round

  -- func (r *ImageSpecReconciler) Reconcile, with checkPushSecret.
  unfoldable pub reconcile_image_spec : SpecRun
  reconcile_image_spec = spec_call cluster.push_secret_error [] (elim cluster.get_spec [
    | err e ↦ if is_not_found e then spec_done else spec_failed e
    | ok spec ↦ settle_time spec
  ])
