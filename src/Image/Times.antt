-- ===== src/Image/Times.antt =====
-- The update times of the image specifications.
use primehub_controller.Image.Spec.{
  delete_job, sync_job, build_image_spec_job, ImageSpec, follow_job, settle_time, SpecCluster,
  same_time, rfc3339_copy,
}
use primehub_controller.Image.{Builder}
use primehub_controller.Prelude.{
  refl, Option, [], ◌∷◌, none, negsuc, String, arith, pos, true, some, ◌≡◌, ℤ,
}

pub rfc3339_copy_idempotent : (t : ℤ) → rfc3339_copy (rfc3339_copy t) ≡ rfc3339_copy t
unfolding rfc3339_copy
rfc3339_copy_idempotent (pos n) = ground arith
rfc3339_copy_idempotent (negsuc n) = ground arith

same_time_refl : (t : ℤ) → same_time (some t) (some t) ≡ true
unfolding same_time
same_time_refl (pos n) = ground arith
same_time_refl (negsuc n) = ground arith

-- A specification with another update time.
abbrev pub at_time : Option ℤ → ImageSpec → ImageSpec
at_time time spec = record spec { update_time = time }

module _ (builder : Builder) (now : ℤ) (cluster : SpecCluster) where
  -- A specification whose update time is a whole second is not written for its time again: Reconcile
  -- goes on with its job.
  pub settle_time-settled :
      (spec : ImageSpec) (t : ℤ)
      → settle_time builder now cluster (at_time (some (rfc3339_copy t)) spec)
        ≡ sync_job builder now cluster
            (at_time (some (rfc3339_copy t)) spec)
            (at_time (some (rfc3339_copy t)) spec)
  unfolding settle_time
  settle_time-settled spec t =
      rw (rfc3339_copy_idempotent t) (rw (same_time_refl (rfc3339_copy t)) refl)

  -- The job that Reconcile creates for a specification that has no update time yet carries none, so
  -- the next call, which finds the time that was filled in, deletes the job.
  pub follow_job-unset :
      (spec : ImageSpec) (hash : String) (t : ℤ)
      → cluster.delete_error ≡ none
      → (follow_job builder now cluster
          (at_time (some t) spec)
          (build_image_spec_job builder (at_time none spec) hash)).writes
        ≡ delete_job (build_image_spec_job builder (at_time none spec) hash) ∷ []
  unfolding follow_job build_image_spec_job same_time
  follow_job-unset spec hash t deletes = rw deletes refl
