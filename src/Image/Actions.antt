-- ===== src/Image/Actions.antt =====
-- What the image controller writes: which jobs it creates and deletes, and when it sets the URLs.
use mathlib.Core.Bool.{false≢true}
use primehub_controller.Prelude.{
  ◌∙◌, sym, ap, none, some, subst, arith, err, ◌∷◌, All-append, [], inl, inr, refl, List,
  if◌then◌else◌, Bool-cases, Error, All, true, str_eq, Option, Bool, not, false, ok, ◌⊎◌, ◌&&◌, ◌≡◌,
  Result, ℤ,
}
use primehub_controller.Image.Objects.{no_job, target_image_url, Image, ImageSpecJob}
use primehub_controller.Image.{
  reconcile_fetched, with_cancelled, update_image_status, rebuild_image_spec_job,
  cancel_image_spec_job, is_image_custom_build, is_newer, reconcile_image, act, with_job,
  create_image_spec_job, make_image_controller_action, action_for, image_spec_job, unknown, create,
  skip, cancel, rebuild, update, create_job, delete_job, update_image, Run, Cluster, Write, Action,
  Builder, call, failed, finished,
}
use primehub_controller.GoText.{is_empty}
use text.Mathlib.TextEquality.{eq_iff}
use primehub_controller.JobStatus.{is_not_found}

module _ (builder : Builder) (now : ℤ) where
  -- The URLs and the secret of an image change only to those of a job that succeeded.
  abbrev pub HasUrlsOf : Image → Result ImageSpecJob → Image → Type 0
  HasUrlsOf image found written =
      ((written.url ≡ image.url)
        × (written.url_for_gpu ≡ image.url_for_gpu)
        × (written.pull_secret ≡ image.pull_secret))
      ⊎ ((job : ImageSpecJob) × (found ≡ ok job)
          × (job.phase ≡ "Succeeded")
          × (written.url ≡ target_image_url job)
          × (written.url_for_gpu ≡ target_image_url job)
          × (written.pull_secret ≡ job.push_secret))

  abbrev pub IsSound : Image → Result ImageSpecJob → Write → Type 0
  IsSound image found (create_job job) =
      (job ≡ image_spec_job builder now image)
      × ((image.cancel ≡ false) ⊎ (image.condition.phase ≡ "Cancelled"))
  IsSound image found (delete_job job) = (found ≡ ok job) ⊎ (job ≡ no_job)
  IsSound image found (update_image written) = HasUrlsOf image found written

  -- The jobs that an action may name.
  abbrev Names : Result ImageSpecJob → ImageSpecJob → Type 0
  Names found job = (found ≡ ok job) ⊎ (job ≡ no_job)

  abbrev MayBuild : Image → Type 0
  MayBuild image = (image.cancel ≡ false) ⊎ (image.condition.phase ≡ "Cancelled")

  abbrev IsAllowed : Image → Result ImageSpecJob → Action → Type 0
  IsAllowed image found create = MayBuild image
  IsAllowed image found (rebuild job) = MayBuild image × Names found job
  IsAllowed image found (cancel job) = Names found job
  IsAllowed image found (update job) = Names found job
  IsAllowed image found skip = Unit
  IsAllowed image found unknown = Unit

  may_build :
      (image : Image)
      → (image.cancel && not (str_eq image.condition.phase "Cancelled")) ≡ false
      → MayBuild image
  may_build image e = elim (Bool-cases image.cancel) [
    | inr free ↦ inl free
    | inl flagged ↦ inr ((eq_iff image.condition.phase "Cancelled").0 (ground arith))
  ]

  if-IsAllowed :
      (image : Image) (found : Result ImageSpecJob) (b : Bool) (x y : Action)
      → (b ≡ true → IsAllowed image found x)
      → (b ≡ false → IsAllowed image found y)
      → IsAllowed image found (if b then x else y)
  if-IsAllowed image found true x y h k = h refl
  if-IsAllowed image found false x y h k = k refl

  action_for-IsAllowed :
      (image : Image) (found : Result ImageSpecJob) (job : ImageSpecJob)
      → Names found job
      → IsAllowed image found (action_for image job)
  unfolding action_for
  action_for-IsAllowed image found job names =
      if-IsAllowed image found (image.cancel && not (str_eq image.condition.phase "Cancelled"))
        (cancel job)
        (if is_newer image.update_time job.update_time then rebuild job else update job)
        (λ flagged. names)
        (λ free.
          if-IsAllowed image found (is_newer image.update_time job.update_time) (rebuild job)
            (update job) (λ newer. (may_build image free, names)) (λ older. names))

  action_for_answer-IsAllowed :
      (image : Image) (found : Result ImageSpecJob)
      → IsAllowed image found (make_image_controller_action image found)
  unfolding make_image_controller_action
  action_for_answer-IsAllowed image (ok job) =
      if-IsAllowed image (ok job) (is_empty image.base_image) unknown (action_for image job)
        (λ regular. tt) (λ custom. action_for-IsAllowed image (ok job) job (inl refl))
  action_for_answer-IsAllowed image (err e) =
      let missing = if image.cancel then skip else create in
      if-IsAllowed image (err e) (is_empty image.base_image) unknown
        (if is_not_found e then missing else action_for image no_job) (λ regular. tt)
        (λ custom.
          if-IsAllowed image (err e) (is_not_found e) missing (action_for image no_job)
            (λ gone.
              if-IsAllowed image (err e) image.cancel skip create (λ flagged. tt)
                (λ free. inl free))
            (λ lost. action_for-IsAllowed image (err e) no_job (inr refl)))

  module _ (cluster : Cluster) (image : Image) (found : Result ImageSpecJob) where
    abbrev AreSound : Run → Type 0
    AreSound run = All (IsSound image found) run.writes

    call-AreSound :
        (e : Option Error) (writes : List Write) (rest : Run)
        → All (IsSound image found) writes
        → AreSound rest
        → AreSound (call e writes rest)
    call-AreSound none writes rest h k = All-append (IsSound image found) writes rest.writes h k
    call-AreSound (some e) writes rest h k = tt

    if-AreSound : (b : Bool) (x y : Run) → AreSound x → AreSound y → AreSound (if b then x else y)
    if-AreSound true x y h k = h
    if-AreSound false x y h k = k

    create-AreSound : MayBuild image → AreSound (create_image_spec_job builder now cluster image)
    unfolding create_image_spec_job
    create-AreSound free =
        if-AreSound (is_image_custom_build image) _ (failed _)
          (call-AreSound cluster.set_reference_error [] _ tt (
            call-AreSound cluster.create_error (create_job (image_spec_job builder now image) ∷ [])
              finished ((refl, free), tt) tt))
          tt

    with_job-HasUrlsOf :
        (job : ImageSpecJob) → Names found job → HasUrlsOf image found (with_job image job)
    unfolding with_job
    with_job-HasUrlsOf job names = elim (Bool-cases (str_eq job.phase "Succeeded")) [
      | inr other ↦ rw other (inl (refl, refl, refl))
      | inl done ↦ rw done (elim names [
        | inl is_job ↦ inr (job, is_job, (eq_iff job.phase "Succeeded").0 done, refl, refl, refl)
        | inr is_none ↦
            absurd (false≢true (subst (λ j. str_eq j.phase "Succeeded" ≡ true) is_none done))
      ])
    ]

    act-AreSound :
        (action : Action)
        → IsAllowed image found action
        → AreSound (act builder now cluster image action)
    unfolding act cancel_image_spec_job rebuild_image_spec_job update_image_status
    act-AreSound create h = create-AreSound h
    act-AreSound skip h = tt
    act-AreSound unknown h = tt
    act-AreSound (cancel job) h =
        if-AreSound (is_image_custom_build image) _ (failed _)
          (call-AreSound cluster.delete_error (delete_job job ∷ []) _ (h, tt)
            (call-AreSound cluster.update_error (update_image (with_cancelled image) ∷ []) finished
              (inl (refl, refl, refl), tt) tt))
          tt
    act-AreSound (rebuild job) h =
        if-AreSound (is_image_custom_build image) _ (failed _)
          (call-AreSound cluster.delete_error (delete_job job ∷ []) _ (h.1, tt)
            (create-AreSound h.0))
          tt
    act-AreSound (update job) h =
        if-AreSound (is_image_custom_build image) _ (failed _)
          (if-AreSound (image.cancel && not (str_eq image.condition.phase "Cancelled")) _ _
            (call-AreSound cluster.update_error (update_image (with_cancelled image) ∷ []) finished
              (inl (refl, refl, refl), tt) tt)
            (call-AreSound cluster.update_error (update_image (with_job image job) ∷ []) finished
              (with_job-HasUrlsOf job h, tt) tt))
          tt

  fetched-AreSound :
      (cluster : Cluster) (image : Image)
      → All (IsSound image cluster.get_job) (reconcile_fetched builder now cluster image).writes
  unfolding reconcile_fetched
  fetched-AreSound cluster image =
      if-AreSound cluster image cluster.get_job (is_empty image.base_image) finished _ tt (
        act-AreSound cluster image cluster.get_job
          (make_image_controller_action image cluster.get_job)
          (action_for_answer-IsAllowed image cluster.get_job))

  pub reconcile_image-fetched :
      (cluster : Cluster) (answer : Result Image) (image : Image)
      → cluster.get_image ≡ answer
      → answer ≡ ok image
      → reconcile_image builder now cluster ≡ reconcile_fetched builder now cluster image
  unfolding reconcile_image
  reconcile_image-fetched cluster answer image e f =
      ap
        (λ found. elim found [
          | err x ↦ if is_not_found x then finished else failed x
          | ok i ↦ reconcile_fetched builder now cluster i
        ])
        (e ∙ f)

  -- Reconcile of an image creates only the job of the image, and none while the cancel flag is set and
  -- not carried out; it deletes only the job that it found, or a nameless one after a failed Get; and it
  -- gives the image the URLs and the push secret of a job only if that job was found and succeeded.
  pub reconcile_image-IsSound :
      (cluster : Cluster) (image : Image)
      → cluster.get_image ≡ ok image
      → All (IsSound image cluster.get_job) (reconcile_image builder now cluster).writes
  reconcile_image-IsSound cluster image e =
      subst (λ run. All (IsSound image cluster.get_job) run.writes)
        (sym (reconcile_image-fetched cluster cluster.get_image image refl e))
        (fetched-AreSound cluster image)
