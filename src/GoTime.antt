-- ===== src/GoTime.antt =====
-- Go's package time and its fixed-width integers, as the controllers use them. A Time is its
-- nanoseconds since a fixed instant, a Duration its nanoseconds in an int64. `Time.Add` is exact here:
-- a Time reaches far beyond the dates that a cluster holds.
use native.Mathlib.Nat.{mod-eq_of_lt}
use primehub_controller.Prelude.{
  ℕ, ◌+◌, ◌-◌, ◌*◌, ◌%◌, ◌≤◌, ◌<◌, ◌≡◌, ◌↔◌, Bool, true, arith, ltb, if◌then◌else◌, ℤ, pos, negsuc,
  ◌+ℤ◌, ◌-ℤ◌, ◌*ℤ◌, ◌≤ℤ◌, ltb_ℤ, leb_ℤ, +ℤ_parts, -ℤ_parts,
}

-- The value of an intN that holds the low bits of an integer, where `half` is 2^(N-1).
abbrev pub signed : ℕ → ℕ → ℤ
signed half r = if ltb r half then pos r else negsuc (half + half - 1 - r)

unfoldable pub wrap : ℕ → ℤ → ℤ
wrap half (pos n) = signed half (n % (half + half))
wrap half (negsuc n) = signed half (half + half - 1 - n % (half + half))

abbrev pub int64 : ℤ → ℤ
int64 = wrap 9223372036854775808

abbrev pub int32 : ℤ → ℤ
int32 = wrap 2147483648

abbrev pub max_duration : ℕ
max_duration = 9223372036854775807

-- time.Second * time.Duration(n), a product of two int64.
unfoldable pub seconds : ℤ → ℤ
seconds n = int64 (n *ℤ pos 1000000000)

-- t.Sub(u): the difference, or the nearest Duration.
unfoldable pub sub_time : ℤ → ℤ → ℤ
sub_time t u =
    let d = t -ℤ u in
    if ltb_ℤ (pos max_duration) d
    then pos max_duration
    else if ltb_ℤ d (negsuc max_duration)
    then negsuc max_duration
    else d

-- t.Add(d)
abbrev pub add_time : ℤ → ℤ → ℤ
add_time t d = t +ℤ d

-- t.After(u)
abbrev pub after : ℤ → ℤ → Bool
after t u = ltb_ℤ u t

pub wrap-pos : (half n : ℕ) → n < half → wrap half (pos n) ≡ pos n
unfolding wrap
wrap-pos half n h = let e : n % (half + half) ≡ n = mod-eq_of_lt (omega arith) in ground arith

-- A number of seconds below 2^63 nanoseconds is a Duration without wrap-around.
pub seconds-pos : (n : ℕ) → n ≤ 9223372036 → seconds (pos n) ≡ pos (n * 1000000000)
unfolding seconds ◌*ℤ◌ wrap
seconds-pos n h = ground arith

-- The saturation does not show in a comparison with a Duration.
pub sub_time_reaches :
    (t u : ℤ) (d : ℕ) → d ≤ max_duration → (leb_ℤ (pos d) (sub_time t u) ≡ true) ↔ (u +ℤ pos d ≤ℤ t)
unfolding sub_time
sub_time_reaches t u d h = (
  (λ e. ground (arith, +ℤ_parts u (pos d), -ℤ_parts t u)),
  λ e. ground (arith, +ℤ_parts u (pos d), -ℤ_parts t u),
)
