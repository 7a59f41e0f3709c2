-- ===== src/JobPod/Standing.antt =====
-- The steps of buildPod on a pod that has a container and mounts only its volumes.
use primehub_controller.Prelude.{
  String, Bool-cases, Option, none, some, List, [], ◌∷◌, ◌++◌, Result, ok, err, ◌≡◌, refl, inl, inr,
  All, All-append, true, str_eq_refl,
}
use mathlib.Core.Option
use primehub_controller.PhJob.{PhJob}
use primehub_controller.Spawn.{Volume, VolumeMount, EnvVar, Container, unsized_dir, memory_dir}
use primehub_controller.Spawn.Build.{PodSpec}
use primehub_controller.Spawn.Mounts.{has_volume, has_volume-before, AllMounted, IsClosed}
use primehub_controller.Spawn.Closed.{container-after}
use primehub_controller.Deployment.ModelVolumes.{Mlflow}
use primehub_controller.JobPod.Additions.{
  mount_in_first, agent_container, attach_monitoring_agent, append_env, with_time_zone,
  with_shared_memory, with_job_env, PodSettings,
}

module _ {Q : Type 0} where
  abbrev pub ContainersClosed : List (Volume Q) → List (Container Q) → Type 0
  ContainersClosed volumes containers =
      All (λ container. AllMounted volumes container.volume_mounts) containers

  append_env-closed :
      (volumes : List (Volume Q)) (variables : List EnvVar) (containers : List (Container Q))
      → ContainersClosed volumes containers
      → ContainersClosed volumes (append_env variables containers)
  unfolding append_env
  append_env-closed volumes variables [] h = tt
  append_env-closed volumes variables (container ∷ containers) h =
      (h.0, append_env-closed volumes variables containers h.1)

  with_time_zone-closed :
      (volumes : List (Volume Q)) (time_zone : Result String) (containers : List (Container Q))
      → ContainersClosed volumes containers
      → ContainersClosed volumes (with_time_zone time_zone containers)
  unfolding with_time_zone
  with_time_zone-closed volumes (ok location) containers h =
      append_env-closed volumes _ containers h
  with_time_zone-closed volumes (err e) containers h = h

  abbrev pub HasFirst : List (Container Q) → Type 0
  HasFirst [] = ⊥
  HasFirst (first ∷ others) = Unit

  append_env-HasFirst :
      (variables : List EnvVar) (containers : List (Container Q))
      → HasFirst containers
      → HasFirst (append_env variables containers)
  unfolding append_env
  append_env-HasFirst variables [] h = elim h [ ]
  append_env-HasFirst variables (first ∷ others) h = tt

  with_time_zone-HasFirst :
      (time_zone : Result String) (containers : List (Container Q))
      → HasFirst containers
      → HasFirst (with_time_zone time_zone containers)
  unfolding with_time_zone
  with_time_zone-HasFirst (ok location) containers h = append_env-HasFirst _ containers h
  with_time_zone-HasFirst (err e) containers h = h

  -- A pod with a container, every mount of which names a volume of the pod.
  abbrev pub Stands : PodSpec Q → Type 0
  Stands spec = IsClosed spec × HasFirst spec.containers

  abbrev pub IsStanding : Option (PodSpec Q) → Type 0
  IsStanding none = ⊥
  IsStanding (some spec) = Stands spec

  pub with_job_env-Stands :
      (job : PhJob) (time_zone : Result String) (groups : List (String × Option Mlflow))
      (spec : PodSpec Q)
      → Stands spec
      → Stands (with_job_env job time_zone groups spec)
  unfolding with_job_env
  with_job_env-Stands job time_zone groups spec ((main, inits), first) = (
    (
      append_env-closed spec.volumes _ _
          (with_time_zone-closed spec.volumes time_zone spec.containers main),
      inits,
    ),
    append_env-HasFirst _ _ (with_time_zone-HasFirst time_zone spec.containers first),
  )

  -- One more volume, with a mount in the first container and an init container.
  abbrev grown : PodSpec Q → Volume Q → Container Q → List (Container Q) → PodSpec Q
  grown spec volume init containers = record spec {
    volumes = spec.volumes ++ volume ∷ [];
    containers = containers;
    init_containers = spec.init_containers ++ init ∷ [];
  }

  grown-IsStanding :
      (spec : PodSpec Q) (volume : Volume Q) (init : Container Q) (m : VolumeMount)
      (containers : List (Container Q))
      → m.name ≡ volume.name
      → AllMounted (spec.volumes ++ volume ∷ []) init.volume_mounts
      → ContainersClosed spec.volumes containers
      → ContainersClosed spec.volumes spec.init_containers
      → HasFirst containers
      → IsStanding (Option.map (grown spec volume init) (mount_in_first m containers))
  unfolding mount_in_first
  grown-IsStanding spec volume init m [] named mounted main inits h = elim h [ ]
  grown-IsStanding spec volume init m (first ∷ others) named mounted main inits h =
      let volumes = spec.volumes ++ volume ∷ [] in
      let there : has_volume m.name (volume ∷ []) ≡ true =
        rw named (rw (str_eq_refl volume.name) refl) in
      let kept = container-after spec.volumes (volume ∷ []) (first ∷ others) main in
      (
        (
          (
            All-append _ first.volume_mounts (m ∷ []) kept.0
                (has_volume-before m.name (volume ∷ []) spec.volumes there, tt),
            kept.1,
          ),
          All-append _ spec.init_containers (init ∷ [])
              (container-after spec.volumes (volume ∷ []) spec.init_containers inits) (mounted, tt),
        ),
        tt,
      )

  pub with_shared_memory-IsStanding :
      (spec : PodSpec Q) → Stands spec → IsStanding (with_shared_memory spec)
  unfolding with_shared_memory
  with_shared_memory-IsStanding spec ((main, inits), first) =
      grown-IsStanding spec (record { name = "dshm"; source = memory_dir }) _ _ spec.containers refl
        tt main inits first

  pub attach_monitoring_agent-IsStanding :
      (settings : PodSettings Q) (spec : PodSpec Q)
      → Stands spec
      → IsStanding (attach_monitoring_agent settings spec)
  unfolding attach_monitoring_agent agent_container
  attach_monitoring_agent-IsStanding settings spec h = elim (Bool-cases settings.artifact_enabled) [
    | inr off ↦ rw (off, attach_monitoring_agent) h
    | inl on ↦
        let agent : Volume Q = record { name = "monitoring-utils"; source = unsized_dir } in
        let there : has_volume "monitoring-utils" (agent ∷ []) ≡ true = refl in
        rw (on, attach_monitoring_agent)
          (grown-IsStanding spec agent (agent_container settings) _ spec.containers refl
            (has_volume-before "monitoring-utils" (agent ∷ []) spec.volumes there, tt) h.0.0 h.0.1
            h.1)
  ]
