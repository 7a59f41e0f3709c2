-- ===== src/Numeric/Exact.antt =====
-- Numbers on which the tests run the quota code: a quantity is its nanos, a float a number of halves,
-- and two texts parse as quantities.
use Prim.Native.Nat.{Ordering}
use primehub_controller.Prelude.{
  false, ◌==◌, true, Bool, ℕ, ◌+◌, ◌*◌, ◌/◌, ◌≡◌, refl, ◌↔◌, String, none, some, lookup, ℤ, pos,
  negsuc, ◌+ℤ◌, ◌-ℤ◌, ◌*ℤ◌, ◌<ℤ◌, ltb_ℤ, Result, ok, err, message, if◌then◌else◌, str_eq, arith,
}
use primehub_controller.Numeric.{Numeric, ResourceList}

abbrev pub gibibytes : ℕ → ℤ
gibibytes n = pos (n * 1073741824 * 1000000000)

abbrev compare_nanos : ℤ → ℤ → Ordering
compare_nanos a b =
    if ltb_ℤ a b then Ordering.lt else if ltb_ℤ b a then Ordering.gt else Ordering.eq

pub compare_nanos-lt : (a b : ℤ) → (compare_nanos a b ≡ Ordering.lt) ↔ (a <ℤ b)
compare_nanos-lt a b = ((λ e. ground arith), λ e. ground arith)

abbrev zero_nanos : ℤ → Bool
zero_nanos (pos n) = n == 0
zero_nanos (negsuc n) = false

pub zero_nanos_iff : (a : ℤ) → (zero_nanos a ≡ true) ↔ (a ≡ pos 0)
zero_nanos_iff (pos n) = ground arith
zero_nanos_iff (negsuc n) = ground arith

abbrev parse : String → Result ℤ
parse text =
    if str_eq text "8Gi"
    then ok (gibibytes 8)
    else if str_eq text "4Gi"
    then ok (gibibytes 4)
    else err (message text)

abbrev limit_of : String → ResourceList ℤ → ℤ
limit_of name limits = elim (lookup name limits) [ some q ↦ q | none ↦ pos 0 ]

abbrev mul_halves : ℤ → ℤ → ℤ
mul_halves (pos a) (pos b) = pos (a * b / 2)
mul_halves a b = pos 0

abbrev truncate : ℤ → ℤ
truncate (pos a) = pos (a / 2)
truncate (negsuc a) = pos 0

instance abbrev pub exact : Numeric
exact = record {
  Quantity = ℤ;
  zero_quantity = pos 0;
  is_zero = zero_nanos;
  add = λ a b. a +ℤ b;
  sub = λ a b. a -ℤ b;
  cmp = compare_nanos;
  of_int = λ n. n *ℤ pos 1000000000;
  of_milli = λ n. n *ℤ pos 1000000;
  parse_quantity = parse;
  limit_cpu = limit_of "cpu";
  limit_memory = limit_of "memory";
  Float = ℤ;
  float_of = λ n. pos (n + n);
  float_of_int = λ n. n +ℤ n;
  half = pos 1;
  float_lt = ltb_ℤ;
  float_mul = mul_halves;
  float_add = λ a b. a +ℤ b;
  to_int64 = truncate;
  nanos = λ a. a;
  nanos-zero_quantity = refl;
  is_zero_iff = zero_nanos_iff;
  nanos-add = λ a b. refl;
  nanos-sub = λ a b. refl;
  cmp-lt = compare_nanos-lt;
}
