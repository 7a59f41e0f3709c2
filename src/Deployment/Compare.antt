-- ===== src/Deployment/Compare.antt =====
-- What needUpdateDeployment and needScaleDeployment compare.
use text.Mathlib.TextEquality.{eq_iff}
use primehub_controller.Prelude.{
  Bool, List, String, [], ◌∷◌, false, true, ◌≡◌, ◌↔◌, refl, ap, ◌∙◌, arith, map,
}
use primehub_controller.Spawn.{EnvVar}
use primehub_controller.Deployment.{PhDeploymentSpec, compare_env_var, value_text}
use primehub_controller.Deployment.Phases.{int_eq-eq}
use primehub_controller.Deployment.Build.{replicas_of}
use primehub_controller.Deployment.Update.{same_bool, differs, need_scale_deployment}

-- What needUpdateDeployment looks at.
abbrev pub env_texts : List EnvVar → List (String × String)
env_texts = map (λ variable. (variable.name, value_text variable.value))

abbrev pub Built : Type 0
Built = String × String × String × String × List (String × String)

abbrev pub build_key : PhDeploymentSpec → Built
build_key spec = (
  spec.predictor.model_image,
  spec.predictor.image_pull_secret,
  spec.predictor.instance_type,
  spec.predictor.model_uri,
  env_texts spec.env,
)

compare-texts : (xs ys : List EnvVar) → compare_env_var xs ys ≡ true → env_texts xs ≡ env_texts ys
unfolding compare_env_var
compare-texts [] [] e = refl
compare-texts [] (y ∷ ys) e = absurd (ground arith)
compare-texts (x ∷ xs) [] e = absurd (ground arith)
compare-texts (x ∷ xs) (y ∷ ys) e =
    let names = (eq_iff x.name y.name).0 (ground arith) in
    let values = (eq_iff (value_text x.value) (value_text y.value)).0 (ground arith) in
    let rest = compare-texts xs ys (ground arith) in rw (names, values, rest) refl

texts-compare : (xs ys : List EnvVar) → env_texts xs ≡ env_texts ys → compare_env_var xs ys ≡ true
unfolding compare_env_var
texts-compare [] [] e = refl
texts-compare [] (y ∷ ys) e = cc
texts-compare (x ∷ xs) [] e = cc
texts-compare (x ∷ xs) (y ∷ ys) e =
    let names = (eq_iff x.name y.name).1 cc in
    let values = (eq_iff (value_text x.value) (value_text y.value)).1 cc in
    let rest = texts-compare xs ys cc in rw (names, values, rest) refl

-- needUpdateDeployment finds no difference exactly where the image, the pull secret, the instance type,
-- the URI of the model, and the names and values of the variables are the same.
pub differs_iff : (a b : PhDeploymentSpec) → (differs a b ≡ false) ↔ (build_key a ≡ build_key b)
unfolding differs
differs_iff a b = (
  λ e.
      let image = (eq_iff a.predictor.model_image b.predictor.model_image).0 (ground arith) in
      let secret =
        (eq_iff a.predictor.image_pull_secret b.predictor.image_pull_secret).0 (ground arith) in
      let kind = (eq_iff a.predictor.instance_type b.predictor.instance_type).0 (ground arith) in
      let uri = (eq_iff a.predictor.model_uri b.predictor.model_uri).0 (ground arith) in
      let env = compare-texts a.env b.env (ground arith) in cc,
  λ e.
      let image = (eq_iff a.predictor.model_image b.predictor.model_image).1 (ap (λ k. k.0) e) in
      let secret =
        (eq_iff a.predictor.image_pull_secret b.predictor.image_pull_secret).1 (ap (λ k. k.1) e) in
      let kind = (eq_iff a.predictor.instance_type b.predictor.instance_type).1 (ap (λ k. k.2) e) in
      let uri = (eq_iff a.predictor.model_uri b.predictor.model_uri).1 (ap (λ k. k.3) e) in
      let env = texts-compare a.env b.env (ap (λ k. k.4) e) in ground arith,
)

pub differs_refl : (a : PhDeploymentSpec) → differs a a ≡ false
differs_refl a = (differs_iff a a).1 refl

pub differs_trans :
    (a b c : PhDeploymentSpec) → differs a b ≡ false → differs b c ≡ false → differs a c ≡ false
differs_trans a b c e f = (differs_iff a c).1 ((differs_iff a b).0 e ∙ (differs_iff b c).0 f)

same_bool-eq : (a b : Bool) → same_bool a b ≡ true → a ≡ b
same_bool-eq true true e = refl
same_bool-eq true false e = cc
same_bool-eq false true e = cc
same_bool-eq false false e = refl

-- Where needScaleDeployment finds nothing, the same number of replicas is asked for.
pub unscaled-replicas_of :
    (spec last : PhDeploymentSpec)
    → need_scale_deployment spec last ≡ false
    → replicas_of last ≡ replicas_of spec
unfolding need_scale_deployment
unscaled-replicas_of spec last e =
    let stops = same_bool-eq spec.stop last.stop (ground arith) in
    let counts = int_eq-eq spec.predictor.replicas last.predictor.replicas (ground arith) in
    rw (stops, counts) refl
