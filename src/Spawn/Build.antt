-- ===== src/Spawn/Build.antt =====
-- pkg/graphql/spawn.go: the containers and the specification of the pod that a spawner stands for. The
-- policies of the containers, which are constants, and the affinity are not modelled. A spawner builds
-- one pod, so what the code leaves in the spawner's own containers is read by nothing.
use primehub_controller.Prelude.{
  put_all, [], ◌∷◌, ◌++◌, if◌then◌else◌, some, if◌then◌else◌, ℤ, none, Option, String, List,
}
use primehub_controller.Numeric.{Numeric}
use primehub_controller.Spawn.{Spawner, Container, Volume}
use primehub_controller.Kube.{Toleration}
use primehub_controller.GoText.{join, is_empty}
use primehub_controller.Spawn.Resources.{container_limits, gpu_limits, container_requests}

-- corev1.PodSpec; the inner option of `security_context` is its RunAsUser.
pub record PodSpec (Q : Type 0) : Type 0 where
  pub volumes : List (Volume Q)
  pub containers : List (Container Q)
  pub init_containers : List (Container Q)
  pub image_pull_secrets : List String
  pub security_context : Option (Option ℤ)
  pub node_selector : List (String × String)
  pub tolerations : List Toleration

abbrev or_text : String → String → String
or_text first other = if is_empty first then other else first

abbrev or_list : List String → List String → List String
or_list [] other = other
or_list (word ∷ words) other = word ∷ words

abbrev symlink_script : List String → Option String
symlink_script [] = none
symlink_script (line ∷ lines) = some (join ";" (line ∷ lines))

abbrev or_script : Option String → Option String → Option String
or_script (some script) other = some script
or_script none other = other

module _ ⦃api : Numeric⦄ where
  open api use {Quantity}

  abbrev or_own : Option (Container Quantity) → Container Quantity → Container Quantity
  or_own (some container) own = container
  or_own none own = own

  -- func buildContainer
  unfoldable pub build_container :
      Spawner Quantity → Option (Container Quantity) → Container Quantity
  build_container spawner inherit =
      let container = or_own inherit spawner.container in
      record {
        name = or_text spawner.container.name container.name;
        image = or_text spawner.image container.image;
        command = or_list spawner.container.command container.command;
        args = container.args;
        working_dir = or_text spawner.working_dir container.working_dir;
        env = spawner.prepend_env ++ (container.env ++ spawner.env);
        volume_mounts = container.volume_mounts ++ spawner.volume_mounts;
        requests = container_requests spawner;
        limits = gpu_limits spawner (container_limits spawner);
        run_as_user = container.run_as_user;
        post_start = or_script (symlink_script spawner.symlinks) container.post_start;
      }

  -- func buildInitContainer
  unfoldable pub build_init_container :
      Spawner Quantity → Option (Container Quantity) → Container Quantity
  build_init_container spawner inherit =
      let container = or_own inherit spawner.init_container in
      record {
        name = or_text spawner.init_container.name container.name;
        image = or_text spawner.image container.image;
        command = or_list spawner.init_container.command container.command;
        args = or_list spawner.init_container.args container.args;
        working_dir = or_text spawner.working_dir container.working_dir;
        env = spawner.prepend_env ++ (container.env ++ spawner.env);
        volume_mounts = container.volume_mounts ++ spawner.volume_mounts;
        requests = container_requests spawner;
        limits = container_limits spawner;
        run_as_user = container.run_as_user;
        post_start = container.post_start;
      }

  abbrev add_secret : String → List String → List String
  add_secret secret secrets = if is_empty secret then secrets else secrets ++ secret ∷ []

  -- func BuildPodSpec
  unfoldable pub build_pod_spec : Spawner Quantity → PodSpec Quantity → PodSpec Quantity
  build_pod_spec spawner pod_spec = record {
    volumes = pod_spec.volumes ++ spawner.volumes;
    containers = pod_spec.containers ++ build_container spawner none ∷ [];
    init_containers = pod_spec.init_containers;
    image_pull_secrets = add_secret spawner.image_pull_secret pod_spec.image_pull_secrets;
    security_context = some spawner.run_as_user;
    node_selector = put_all spawner.node_selector pod_spec.node_selector;
    tolerations = pod_spec.tolerations ++ spawner.tolerations;
  }

  -- The first init container of the pod, with the variables, the mounts and the resources of the
  -- main one.
  abbrev pub patched_init :
      Container Quantity → List (Container Quantity) → List (Container Quantity)
  patched_init container [] = []
  patched_init container (first ∷ others) =
      record first {
        env = container.env ++ first.env;
        volume_mounts = container.volume_mounts;
        requests = container.requests;
        limits = container.limits;
      }
      ∷ []

  abbrev or_user : Option (Option ℤ) → Option ℤ → Option (Option ℤ)
  or_user (some user) other = some user
  or_user none other = some other

  -- PatchPodSpec for the containers of the pod.
  unfoldable pub patch_containers :
      Spawner Quantity → PodSpec Quantity → List (Container Quantity) → PodSpec Quantity
  patch_containers spawner pod_spec [] = build_pod_spec spawner pod_spec
  patch_containers spawner pod_spec (first ∷ others) =
      let container = build_container spawner (some first) in
      record {
        volumes = pod_spec.volumes ++ spawner.volumes;
        containers = container ∷ [];
        init_containers =
            build_init_container spawner none ∷ patched_init container pod_spec.init_containers;
        image_pull_secrets = add_secret spawner.image_pull_secret pod_spec.image_pull_secrets;
        security_context = or_user pod_spec.security_context spawner.run_as_user;
        node_selector = put_all spawner.node_selector pod_spec.node_selector;
        tolerations = pod_spec.tolerations ++ spawner.tolerations;
      }

  -- func PatchPodSpec
  unfoldable pub patch_pod_spec : Spawner Quantity → PodSpec Quantity → PodSpec Quantity
  patch_pod_spec spawner pod_spec = patch_containers spawner pod_spec pod_spec.containers
