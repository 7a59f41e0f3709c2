-- ===== src/Deployment/Samples.antt =====
-- What the theorems on deployments say of a deployment of two pods with a private access.
use mathlib.Core.Option.{none-ne-some}
use primehub_controller.Prelude.{
  true, Option, int_laws, arith, lookup, ℤ, [], false, some, none, ok, err, Error, pos, ◌≡◌, ◌⊎◌,
  refl,
}
use primehub_controller.Numeric.Exact.{exact}
use primehub_controller.Spawn.Samples.{plain, show}
use primehub_controller.Escapism.Samples.{latin}
use primehub_controller.Deployment.{is_private_access, PhDeploymentSpec}
use primehub_controller.Deployment.ModelVolumes.{
  path_part, line_part, server_part, find_nfs, extract_nfs_config,
}
use primehub_controller.Deployment.Storage.{init_step, nfs_step, phfs_step, model_storage}
use primehub_controller.Deployment.Containers.{build_model_container}
use primehub_controller.Deployment.Build.{
  adjusted_engine, adjusted_model, build_parts, build_deployment,
}
use primehub_controller.Deployment.Status.{update_status, Observed}
use primehub_controller.Deployment.Objects.{Deployed}
use primehub_controller.Deployment.Update.{
  look_again, update_deployment, create_deployment, reconcile_deployment,
}
use primehub_controller.Deployment.Phases.{
  BeginsWith, IsHistory, update_status-Means, Means, update_history-IsHistory,
}
use primehub_controller.Deployment.Settles.{HasCurrent}
use primehub_controller.Deployment.Mounts.{IsClosedDeployment}
use primehub_controller.Deployment.Guards.{
  create_ingress-AsksFor, reconcile_ingress-HasGuard, AsksFor, HasGuard,
}
use primehub_controller.GoText.{drop_chars, all_codes}
use primehub_controller.Deployment.Released.{reconcile_found-Releases, Releases}
use primehub_controller.Deployment.Runs.{
  RunsFor, reconcile_deployment-settles, reconcile_deployment-Runs,
}
use primehub_controller.Deployment.Recorded.{update_history}
use primehub_controller.Deployment.Reconcile.{reconcile_found}
use primehub_controller.Deployment.ClosedBuild.{build_deployment-IsClosed}
use primehub_controller.Deployment.Access.{build_ingress, create_ingress, reconcile_ingress}
use primehub_controller.Spawn.Constructors.{new_spawner_for_model_deployment}
use primehub_controller.Deployment.Sources.{extract_nfs_config-append}
use primehub_controller.Spawn.Resources.{find_instance_type, find_group}
use primehub_controller.GoText.Search.{has_prefix}
use primehub_controller.Deployment.Shares.{Has, AreShares, adjusted_model-shares}
use primehub_controller.Deployment.Cases.{
  spec, codec, status, half_up, key, settings, tools, fetched, no_faults, seen, has_empty, nothing,
  describe, built_result, built, ended, run, open_ingress, public_spec, small_model, deployment,
  answers,
}

abbrev partly_available : Option Observed
partly_available = some (record { replicas = pos 2; status = half_up })

update_status-Means_example :
    Means spec partly_available none
      (update_status show spec partly_available none [] status)
      (update_status show spec partly_available none [] status).phase
update_status-Means_example = update_status-Means show spec partly_available none [] status

built_it : built_result ≡ some (ok built)
unfolding build_deployment build_parts build_model_container new_spawner_for_model_deployment
    find_group find_instance_type model_storage phfs_step has_prefix nfs_step extract_nfs_config
    find_nfs server_part drop_chars init_step line_part path_part
built_it = refl

ran : run ≡ some ended
unfolding reconcile_deployment create_deployment
ran = rw built_it refl

reconcile_deployment-Runs_example :
    ((x : Error) × (built_result ≡ some (err x)))
    ⊎ ((object : Deployed PhDeploymentSpec ℤ) × (ended.cluster.deployment ≡ some object)
        × RunsFor plain settings tools latin key codec show describe no_faults fetched seen
            has_empty spec status nothing ended object)
unfolding HasCurrent
reconcile_deployment-Runs_example =
    reconcile_deployment-Runs plain settings tools latin key codec show describe no_faults fetched
      seen has_empty spec status nothing ended tt ran refl

reconcile_deployment-settles_example :
    ((x : Error) × (built_result ≡ some (err x)))
    ⊎ ((object : Deployed PhDeploymentSpec ℤ) × (ended.cluster.deployment ≡ some object)
        × (update_deployment codec show describe no_faults
              (λ s. build_deployment plain settings tools latin key s fetched)
              seen
              has_empty
              spec
              status
              ended.cluster
              object
            ≡ some (
                look_again codec show describe no_faults
                  (λ s. build_deployment plain settings tools latin key s fetched)
                  seen
                  has_empty
                  spec
                  status
                  ended.cluster
                  object)))
reconcile_deployment-settles_example =
    reconcile_deployment-settles plain settings tools latin key codec show describe no_faults
      fetched seen has_empty spec status nothing ended no_faults fetched seen has_empty status
      ended.cluster refl ran refl

update_history-IsHistory_example :
    IsHistory (update_history codec spec (pos 7) [])
    × BeginsWith spec (update_history codec spec (pos 7) [])
update_history-IsHistory_example = update_history-IsHistory codec spec (pos 7) [] (omega arith, tt)

build_deployment-IsClosed_example : IsClosedDeployment built
build_deployment-IsClosed_example =
    build_deployment-IsClosed plain settings tools latin key spec fetched built built_it

reconcile_ingress-HasGuard_example :
    HasGuard true "deploy-iris" open_ingress
      (reconcile_ingress no_faults key spec [] (record nothing { ingress = some open_ingress }))
unfolding is_private_access lookup build_ingress
reconcile_ingress-HasGuard_example =
    reconcile_ingress-HasGuard no_faults key spec []
      (record nothing { ingress = some open_ingress }) open_ingress refl refl refl
      (λ e. absurd (none-ne-some _ e))

create_ingress-AsksFor_example :
    AsksFor "deploy-iris"
      (create_ingress no_faults
        (record { namespace = "hub"; name = "rose" })
        public_spec
        (create_ingress no_faults key spec [] nothing).1
        nothing).0.cluster.ingress
unfolding is_private_access
create_ingress-AsksFor_example =
    create_ingress-AsksFor no_faults no_faults key (record { namespace = "hub"; name = "rose" })
      spec public_spec [] nothing nothing refl refl refl

extract_nfs_config-append_example :
    extract_nfs_config "nfs://storage/models" ≡ some (ok ("storage", "/models"))
unfolding all_codes
extract_nfs_config-append_example = extract_nfs_config-append "storage" "models" refl refl refl

adjusted_model-shares_example :
    (cpu : ℤ) × (rest_cpu : ℤ) × (memory : ℤ) × (rest_memory : ℤ) × Has plain settings tools
      (adjusted_engine plain settings tools small_model small_model)
      cpu
      memory
    × Has plain settings tools
        (adjusted_model plain settings tools small_model)
        rest_cpu
        rest_memory
    × AreShares tools.tenth
        (pos 300)
        (tools.milli_value (exact.limit_cpu small_model.limits))
        cpu
        rest_cpu
    × AreShares tools.tenth
        (pos 262144000)
        (tools.value (exact.limit_memory small_model.limits))
        memory
        rest_memory
unfolding lookup
adjusted_model-shares_example =
    adjusted_model-shares plain settings tools (λ n h. h) small_model small_model (omega int_laws)
      (omega int_laws)

reconcile_found-Releases_example :
    Releases codec show describe
      (λ a b. false)
      (λ env. env)
      "https://hub"
      (λ k s. build_deployment plain settings tools latin k s fetched)
      ended.cluster
      (reconcile_found codec show describe
        (λ a b. false)
        (λ env. env)
        "https://hub"
        (λ k s. build_deployment plain settings tools latin k s fetched)
        answers
        []
        ended.cluster
        deployment)
reconcile_found-Releases_example =
    reconcile_found-Releases codec show describe (λ a b. false) (λ env. env) "https://hub"
      (λ k s. build_deployment plain settings tools latin k s fetched) answers [] ended.cluster
      deployment tt refl refl refl
