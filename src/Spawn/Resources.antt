-- ===== src/Spawn/Resources.antt =====
-- pkg/graphql/spawn.go: the group, the image and the instance type of a pod, and its resources.
use Prim.Native.String.{◌++◌ as ◌+++◌}
use primehub_controller.Prelude.{
  str_eq, ◌∷◌, message, err, pos, ok, some, ◌||◌, [], put, ltb_ℤ, ◌++◌, put_all, ◌==◌, none,
  if◌then◌else◌, if◌then◌else◌, ℤ, Bool, Result, Option, ℕ, List, String,
}
use primehub_controller.Graphql.{InstanceType, UserGroup, DtoImage}
use primehub_controller.Numeric.{ResourceList, Numeric}
use primehub_controller.GoText.{is_empty, last_code}
use primehub_controller.Spawn.{Spawner}
use primehub_controller.Kube.{Toleration}
use primehub_controller.Quota.{DtoInstanceType}

-- The last entry of a name, or the one before.
abbrev pub last_named :
    {F : Type 0} → String → List (UserGroup F) → Option (UserGroup F) → Option (UserGroup F)
last_named name [] found = found
last_named name (group ∷ groups) found =
    last_named name groups (if str_eq group.name name then some group else found)

-- func findGroup: the group of the name and the group everyone, a missing one being empty.
unfoldable pub find_group :
    {F : Type 0} → List (UserGroup F) → String → Result (UserGroup F × Option (UserGroup F))
find_group groups group_name = elim (last_named group_name groups none) [
  | some group ↦ ok (group, last_named "everyone" groups none)
  | none ↦ err (message ("Group not found: " +++ group_name))
]

abbrev pub first_image : String → List DtoImage → Option DtoImage
first_image name [] = none
first_image name (image ∷ images) =
    if str_eq image.name name then some image else first_image name images

-- func findImage
unfoldable pub find_image : List DtoImage → List DtoImage → String → Result DtoImage
find_image images global_images image_name = elim (first_image image_name images) [
  | some image ↦ ok image
  | none ↦ elim (first_image image_name global_images) [
    | some image ↦ ok image
    | none ↦ err (message ("Image not found: " +++ image_name))
  ]
]

abbrev pub first_type : {F : Type 0} → String → List (InstanceType F) → Option (InstanceType F)
first_type name [] = none
first_type name (instance_type ∷ types) =
    if str_eq instance_type.name name then some instance_type else first_type name types

-- func findInstanceType
unfoldable pub find_instance_type :
    {F : Type 0} → List (InstanceType F) → List (InstanceType F) → String → Result (InstanceType F)
find_instance_type types global_types type_name = elim (first_type type_name types) [
  | some instance_type ↦ ok instance_type
  | none ↦ elim (first_type type_name global_types) [
    | some instance_type ↦ ok instance_type
    | none ↦ err (message ("InstanceType not found: " +++ type_name))
  ]
]

-- [GMK]$
abbrev pub is_unit : ℕ → Bool
is_unit c = c == 71 || c == 77 || c == 75

-- func ConvertMemoryUnit; the code of `i` is 105.
unfoldable pub convert_memory_unit : String → String
convert_memory_unit value = elim (last_code value) [
  | none ↦ ""
  | some c ↦ if c == 105 then value else if is_unit c then value +++ "i" else value
]

module _ {Q : Type 0} where
  -- func ApplyNodeSelectorForOperator
  unfoldable pub apply_node_selector : List (String × String) → Spawner Q → Spawner Q
  apply_node_selector node_selector spawner = record spawner {
    node_selector = put_all node_selector spawner.node_selector;
  }

  -- func ApplyTolerationsForOperator
  unfoldable pub apply_tolerations : List Toleration → Spawner Q → Spawner Q
  apply_tolerations tolerations spawner = record spawner {
    tolerations = spawner.tolerations ++ tolerations;
  }

  -- func WithCommand
  unfoldable pub with_command : List String → Spawner Q → Spawner Q
  with_command command spawner = record spawner {
    container = record spawner.container { command = command };
  }

  -- func applyImageForImageSpec
  unfoldable pub apply_image_for_image_spec : DtoImage → Bool → Spawner Q → Spawner Q
  apply_image_for_image_spec image is_gpu spawner = record spawner {
    image = if is_gpu then image.url_for_gpu else image.url;
    image_pull_secret = image.pull_secret;
  }

module _ ⦃api : Numeric⦄ where
  open api use {Quantity, Float}

  -- SetMilli of a thousand times a positive number; the quantity stays for another.
  abbrev set_cpu : Float → Quantity → Quantity
  set_cpu cpu before =
      if api.float_lt (api.float_of 0) cpu
      then api.of_milli (api.to_int64 (api.float_mul cpu (api.float_of 1000)))
      else before

  abbrev set_gpu : ℤ → Quantity → Quantity
  set_gpu gpu before = if ltb_ℤ (pos 0) gpu then api.of_int gpu else before

  -- A text that does not parse leaves the quantity.
  abbrev pub set_memory : String → Quantity → Quantity
  set_memory memory before =
      if is_empty memory then before else elim (api.parse_quantity (convert_memory_unit memory)) [
        | ok quantity ↦ quantity
        | err _ ↦ before
      ]

  abbrev pub is_gpu : DtoInstanceType Float → Bool
  is_gpu spec = ltb_ℤ (pos 0) spec.limits_gpu

  -- func applyResourceForInstanceType, which returns `is_gpu`. The display format is not modelled.
  unfoldable pub apply_resource_for_instance_type :
      DtoInstanceType Float → Spawner Quantity → Spawner Quantity
  apply_resource_for_instance_type spec spawner = apply_tolerations spec.tolerations (
      apply_node_selector spec.node_selector (record spawner {
        requests_cpu = set_cpu spec.requests_cpu spawner.requests_cpu;
        limits_cpu = set_cpu spec.limits_cpu spawner.limits_cpu;
        requests_gpu = set_gpu spec.requests_gpu spawner.requests_gpu;
        limits_gpu = set_gpu spec.limits_gpu spawner.limits_gpu;
        gpu_resource_name =
            if is_empty spec.gpu_resource_name
            then spawner.gpu_resource_name
            else spec.gpu_resource_name;
        requests_memory = set_memory spec.requests_memory spawner.requests_memory;
        limits_memory = set_memory spec.limits_memory spawner.limits_memory;
      }))

  abbrev put_quantity : String → Quantity → ResourceList Quantity → ResourceList Quantity
  put_quantity name quantity resources =
      if api.is_zero quantity then resources else put name quantity resources

  -- configContainerResource for RESOURCE_CPU and RESOURCE_MEM on empty resources.
  unfoldable pub container_requests : Spawner Quantity → ResourceList Quantity
  container_requests spawner =
      put_quantity "memory" spawner.requests_memory (put_quantity "cpu" spawner.requests_cpu [])

  unfoldable pub container_limits : Spawner Quantity → ResourceList Quantity
  container_limits spawner =
      put_quantity "memory" spawner.limits_memory (put_quantity "cpu" spawner.limits_cpu [])

  -- The same for RESOURCE_GPU, which is never requested.
  unfoldable pub gpu_limits : Spawner Quantity → ResourceList Quantity → ResourceList Quantity
  gpu_limits spawner limits =
      if api.is_zero spawner.limits_gpu || is_empty spawner.gpu_resource_name
      then limits
      else put spawner.gpu_resource_name spawner.limits_gpu limits
