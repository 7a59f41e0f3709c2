-- ===== src/Numeric.antt =====
-- What pkg/quota/resourceQuota.go uses of other code: `resource.Quantity` of k8s.io/apimachinery and
-- Go's float32.
pub mod Exact
use Prim.Native.Nat.{Ordering}
use primehub_controller.Prelude.{
  true, ℕ, String, ◌≡◌, ◌↔◌, Bool, List, ℤ, pos, ◌+ℤ◌, ◌-ℤ◌, ◌<ℤ◌, Result,
}

-- corev1.ResourceList, a map from resource names to quantities. The order of the entries is the
-- order in which a `range` over the map visits them.
abbrev pub ResourceList : Type 0 → Type 0
ResourceList Q = List (String × Q)

-- `nanos` is the exact value that a quantity stands for, in units of 10^-9. `cmp` answers -1, 0 and 1
-- as `lt`, `eq` and `gt`. `limit_cpu` and `limit_memory` are the methods `Cpu` and `Memory` of
-- ResourceList. The laws are those that the documentation of `Add`, `Sub`, `Cmp` and `IsZero` gives; the floats
-- have none.
pub record Numeric : Type 1 where
  pub Quantity : Type 0
  pub zero_quantity : Quantity
  pub is_zero : Quantity → Bool
  pub add : Quantity → Quantity → Quantity
  pub sub : Quantity → Quantity → Quantity
  pub cmp : Quantity → Quantity → Ordering
  pub of_int : ℤ → Quantity
  pub of_milli : ℤ → Quantity
  pub parse_quantity : String → Result Quantity
  pub limit_cpu : ResourceList Quantity → Quantity
  pub limit_memory : ResourceList Quantity → Quantity
  pub Float : Type 0
  pub float_of : ℕ → Float
  pub float_of_int : ℤ → Float
  pub half : Float
  pub float_lt : Float → Float → Bool
  pub float_mul : Float → Float → Float
  pub float_add : Float → Float → Float
  pub to_int64 : Float → ℤ
  pub nanos : Quantity → ℤ
  pub nanos-zero_quantity : nanos zero_quantity ≡ pos 0
  pub is_zero_iff : (a : Quantity) → (is_zero a ≡ true) ↔ (nanos a ≡ pos 0)
  pub nanos-add : (a b : Quantity) → nanos (add a b) ≡ nanos a +ℤ nanos b
  pub nanos-sub : (a b : Quantity) → nanos (sub a b) ≡ nanos a -ℤ nanos b
  pub cmp-lt : (a b : Quantity) → (cmp a b ≡ Ordering.lt) ↔ (nanos a <ℤ nanos b)
