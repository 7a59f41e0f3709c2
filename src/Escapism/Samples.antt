-- ===== src/Escapism/Samples.antt =====
-- Labels of small names, with tables that know ASCII and one more letter.
use Prim.Native.Char.{Char}
use primehub_controller.Prelude.{ℕ, ◌<◌, ◌≡◌, refl, Bool, ◌&&◌, ◌||◌, leb, ◌==◌, [], ◌∷◌, arith}
use primehub_controller.Escapism.{
  Unicode, utf8, returned, out_of_range, escape_to_dns_label, escape_to_primehub_label,
  unescape_dns_label, unescape_primehub_label,
}
use primehub_controller.Escapism.RoundTrip.{unescape-escape_to_primehub_label}
use primehub_controller.Escapism.Alphabet.{IsLabel, escape_to_primehub_label-IsLabel}

abbrev pub lower : ℕ → Bool
lower c = leb b'a' c && leb c b'z' || c == 233

abbrev pub digit : ℕ → Bool
digit c = leb b'0' c && leb c b'9'

pub lower_ascii : (c : ℕ) → c < 128 → lower c ≡ (leb b'a' c && leb c b'z')
lower_ascii c h = ground arith

abbrev pub latin : Unicode
latin = record {
  is_lower = lower;
  is_digit = digit;
  is_lower_ascii = lower_ascii;
  is_digit_ascii = λ c h. refl;
}

escape_user : escape_to_primehub_label latin "User-1@x" ≡ "escaped--55ser-2d1-40x"
unfolding escape_to_primehub_label escape_to_dns_label utf8
escape_user = refl

escape_accent : escape_to_dns_label latin "É" ≡ "-c3-89"
unfolding escape_to_dns_label utf8
escape_accent = refl

unescape_short : unescape_dns_label (b'a' ∷ b'-' ∷ b'4' ∷ []) ≡ out_of_range
unfolding unescape_dns_label
unescape_short = refl

unescape_bad_digit : unescape_dns_label (b'a' ∷ b'-' ∷ b'g' ∷ b'0' ∷ []) ≡ returned []
unfolding unescape_dns_label
unescape_bad_digit = refl

unescape-escape_to_primehub_label_example :
    unescape_primehub_label (utf8 (escape_to_primehub_label latin "User-1@é"))
    ≡ returned (utf8 "User-1@é")
unescape-escape_to_primehub_label_example = unescape-escape_to_primehub_label latin "User-1@é"

escape_to_primehub_label-IsLabel_example : IsLabel (utf8 (escape_to_primehub_label latin "User@1"))
escape_to_primehub_label-IsLabel_example =
    escape_to_primehub_label-IsLabel latin "User@1" (omega arith)

abbrev accent : Char
accent = "é"
