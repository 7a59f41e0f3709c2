-- ===== src/Image/Follows.antt =====
-- The job of an image over two calls of Reconcile, and after a failed Get.
use primehub_controller.Prelude.{
  negsuc, pos, ◌∙◌, sym, ap, none, some, subst, arith, err, ◌∷◌, [], refl, if◌then◌else◌, Error,
  Option, false, ok, ◌≡◌, Result, ℤ,
}
use primehub_controller.Image.Objects.{no_job, Image, ImageSpecJob}
use primehub_controller.Image.{
  reconcile_fetched, update_image_status, is_newer, reconcile_image, act, with_job,
  make_image_controller_action, action_for, image_spec_job, unknown, update, update_image, Cluster,
  Action, Builder, finished,
}
use primehub_controller.GoText.{is_empty}
use primehub_controller.JobStatus.{is_not_found}
use primehub_controller.Image.Actions.{reconcile_image-fetched}

module _ (builder : Builder) (now : ℤ) where
  built_time_older :
      (t : Option ℤ) → is_newer t (elim t [ some time ↦ some time | none ↦ some now ]) ≡ false
  built_time_older none = refl
  built_time_older (some (pos n)) = ground arith
  built_time_older (some (negsuc n)) = ground arith

  newer_none : (t : Option ℤ) → is_newer t none ≡ false
  newer_none none = refl
  newer_none (some t) = refl

  action_for-update :
      (image : Image) (job : ImageSpecJob)
      → image.cancel ≡ false
      → is_newer image.update_time job.update_time ≡ false
      → action_for image job ≡ update job
  unfolding action_for
  action_for-update image job free older = rw (free, older, action_for) refl

  -- The job that Reconcile creates for a custom image without the cancel flag is followed by the next
  -- call, and not built again, as its update time is that of the image.
  pub image_spec_job-updates :
      (image : Image)
      → image.cancel ≡ false
      → is_empty image.base_image ≡ false
      → make_image_controller_action image (ok (image_spec_job builder now image))
        ≡ update (image_spec_job builder now image)
  unfolding make_image_controller_action image_spec_job
  image_spec_job-updates image free custom =
      let followed =
        action_for-update image (image_spec_job builder now image) free
          (built_time_older image.update_time) in
      subst
        (λ b.
          (if b then unknown else action_for image (image_spec_job builder now image))
          ≡ update (image_spec_job builder now image))
        (sym custom) followed

  fetched-act :
      (cluster : Cluster) (image : Image) (found : Result ImageSpecJob) (action : Action)
      → is_empty image.base_image ≡ false
      → cluster.get_job ≡ found
      → make_image_controller_action image found ≡ action
      → reconcile_fetched builder now cluster image ≡ act builder now cluster image action
  unfolding reconcile_fetched
  fetched-act cluster image found action custom answer e =
      let acts =
        ap (λ f. act builder now cluster image (make_image_controller_action image f)) answer
        ∙ ap (act builder now cluster image) e in
      subst
        (λ b.
          (if b
            then finished
            else act builder now cluster image (make_image_controller_action image cluster.get_job))
          ≡ act builder now cluster image action)
        (sym custom) acts

  act-lost :
      (cluster : Cluster) (image : Image)
      → is_empty image.base_image ≡ false
      → image.cancel ≡ false
      → cluster.update_error ≡ none
      → (act builder now cluster image (update no_job)).writes
        ≡ update_image (with_job image no_job) ∷ []
  unfolding act update_image_status
  act-lost cluster image custom free updates = rw (custom, free, updates) refl

  -- Where the Get of the job fails with another error than a missing job, and the cluster accepts the
  -- update, Reconcile writes a custom image without the cancel flag with an empty phase and an empty
  -- name of its job.
  pub reconcile_image-loses :
      (cluster : Cluster) (image : Image) (e : Error)
      → cluster.get_image ≡ ok image
      → cluster.get_job ≡ err e
      → is_not_found e ≡ false
      → is_empty image.base_image ≡ false
      → image.cancel ≡ false
      → cluster.update_error ≡ none
      → (reconcile_image builder now cluster).writes
        ≡ update_image
            (record image { condition = record image.condition { phase = ""; job_name = "" } })
          ∷ []
  unfolding make_image_controller_action with_job
  reconcile_image-loses cluster image e get_image get_job lost custom free updates =
      let older : is_newer image.update_time none ≡ false = newer_none image.update_time in
      let followed = action_for-update image no_job free older in
      let acts : make_image_controller_action image (err e) ≡ update no_job =
        rw (custom, lost) followed in
      ap (λ run. run.writes)
        (reconcile_image-fetched builder now cluster cluster.get_image image refl get_image)
      ∙ ap (λ run. run.writes)
          (fetched-act cluster image (err e) (update no_job) custom get_job acts)
      ∙ act-lost cluster image custom free updates
