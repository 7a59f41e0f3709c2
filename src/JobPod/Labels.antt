-- ===== src/JobPod/Labels.antt =====
-- The labels of the pod of a job next to those by which pkg/quota/resourceQuota.go lists the pods.
use mathlib.Core.Option.{some-injective}
use text.Mathlib.Text.{starts_with}
use primehub_controller.Prelude.{
  String, Bool-cases, some, List, ok, ℤ, ◌≡◌, ◌↔◌, refl, sym, ap, ◌∙◌, inl, inr, All, false, lookup,
  subst,
}
use primehub_controller.GoText.{Casing}
use primehub_controller.Numeric.{Numeric}
use primehub_controller.Escapism.{Unicode, escape_to_primehub_label}
use primehub_controller.Escapism.Length.{escape_to_primehub_label-ne}
use primehub_controller.Graphql.{DtoDataset}
use primehub_controller.Quota.Usage.{Labels, group_labels, user_labels, user_label}
use primehub_controller.PhJob.{PhJob}
use primehub_controller.JobPod.Build.{PodAnswers, BuiltPod, pod_labels, build_pod}
use primehub_controller.JobPod.Additions.{PodSettings}
use primehub_controller.JobPod.Mounts.{AreMounted, build_pod-AreMounted}

-- A selector by labels takes an object that has each of them.
abbrev pub Selects : Labels → Labels → Type 0
Selects selector labels = All (λ label. lookup label.0 labels ≡ some label.1) selector

module _ (tables : Unicode) (job : PhJob) where
  pod_labels-group :
      Selects
        (group_labels (escape_to_primehub_label tables job.spec.group_name))
        (pod_labels tables job)
  unfolding pod_labels lookup
  pod_labels-group = (refl, tt)

  pod_labels-user :
      lookup "primehub.io/user" (pod_labels tables job)
      ≡ some (escape_to_primehub_label tables job.spec.user_name)
  unfolding pod_labels lookup
  pod_labels-user = refl

  user_label_iff :
      (escape_to_primehub_label tables job.spec.user_name ≡ user_label tables job.spec.user_name)
      ↔ (starts_with job.spec.user_name "escaped-" ≡ false)
  unfolding user_label
  user_label_iff = elim (Bool-cases (starts_with job.spec.user_name "escaped-")) [
    | inl escaped ↦ (
      λ e. absurd (escape_to_primehub_label-ne tables job.spec.user_name (rw escaped at e)),
      λ h. cc,
    )
    | inr plain ↦ (λ e. plain, λ h. rw plain refl)
  ]

module _ ⦃api : Numeric⦄ (casing : Casing)
    (range : List (String × DtoDataset) → List (String × DtoDataset)) (megabyte : api.Quantity)
    (show : ℤ → String) (settings : PodSettings api.Quantity) (tables : Unicode)
    (marshal_map : List (String × String) → String) (answers : PodAnswers api.Float)
    (job : PhJob) where
  open api use {Quantity}

  -- The pod that buildPod returns is listed with the pods of the group of its job, and with those of
  -- the user of its job exactly if the name of the user does not begin with escaped-.
  pub build_pod-Selects :
      (pod : BuiltPod Quantity)
      → build_pod casing range megabyte show settings tables marshal_map answers job ≡ some (ok pod)
      → Selects (group_labels (escape_to_primehub_label tables job.spec.group_name)) pod.labels
        × (Selects
              (user_labels
                (escape_to_primehub_label tables job.spec.group_name)
                (user_label tables job.spec.user_name))
              pod.labels
            ↔ (starts_with job.spec.user_name "escaped-" ≡ false))
  build_pod-Selects pod e =
      let sound =
        subst (AreMounted casing range megabyte show settings tables marshal_map answers job) e (
          build_pod-AreMounted casing range megabyte show settings tables marshal_map answers
            job) in
      let group = pod_labels-group tables job in
      let user = pod_labels-user tables job in
      let named = user_label_iff tables job in
      rw sound.2 (
        group,
        (
          λ selected. named.0 (some-injective _ _ (sym user ∙ selected.1.0)),
          λ plain. (group.0, (user ∙ ap some (named.1 plain), tt)),
        ),
      )
