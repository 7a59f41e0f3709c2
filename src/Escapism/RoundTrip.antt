-- ===== src/Escapism/RoundTrip.antt =====
-- Unescaping gives back what was escaped.
use Prim.Native.Char.{Char, code}
use Prim.Native.String.{◌++◌ as ◌+++◌}
use text.Mathlib.TextLemmas.{nil-append, cons-append}
use mathlib.Core.List.{append_assoc, append-nil}
use primehub_controller.Prelude.{
  ℕ, zero, suc, ◌/◌, ◌%◌, ◌<◌, ◌≡◌, refl, String, some, List, [], ◌∷◌, ◌++◌, arith, All, ◌≢◌, inl,
  inr, Bool-cases, not, ◌&&◌, false, ap, sym, ◌∙◌,
}
use primehub_controller.Escapism.{
  Unicode, utf8_char, utf8, hex_digit, hex_byte, escape_char, escape_to_dns_label,
  escape_to_primehub_label, hex_pair, from_hex_char, returned, unescape_from, unescape_dns_label,
  unescape_primehub_label,
}

pub code-lt : (c : Char) → code c < 1114112
code-lt (Char.char n p) = ground arith

pub utf8-append : (s t : String) → utf8 (s +++ t) ≡ utf8 s ++ utf8 t
unfolding utf8
utf8-append String.[] t = rw nil-append
utf8-append (String.◌∷◌ c s) t =
    rw cons-append
      (rw (utf8-append s t) (sym (append_assoc (utf8_char (code c)) (utf8 s) (utf8 t))))

-- The bytes of a code point are bytes, and none of them is a dash unless the code point is one.
pub utf8_char-lt : (c : ℕ) → c < 1114112 → All (λ b. b < 256) (utf8_char c)
unfolding utf8_char
utf8_char-lt c h = ground arith

utf8_char-ne_dash : (c : ℕ) → c < 1114112 → c ≢ b'-' → All (λ b. b ≢ b'-') (utf8_char c)
unfolding utf8_char
utf8_char-ne_dash c h n = ground arith

-- A digit is one byte, and reads back as its value.
abbrev DigitBack : ℕ → Type 0
DigitBack d =
    (utf8_char (code (hex_digit d)) ≡ code (hex_digit d) ∷ [])
    × (from_hex_char (code (hex_digit d)) ≡ some d)

hex_digit-DigitBack : (d : ℕ) → d < 16 → DigitBack d
unfolding hex_digit utf8_char from_hex_char
hex_digit-DigitBack zero h = (refl, refl)
hex_digit-DigitBack (suc zero) h = (refl, refl)
hex_digit-DigitBack (suc (suc zero)) h = (refl, refl)
hex_digit-DigitBack (suc (suc (suc zero))) h = (refl, refl)
hex_digit-DigitBack (suc (suc (suc (suc zero)))) h = (refl, refl)
hex_digit-DigitBack (suc (suc (suc (suc (suc zero))))) h = (refl, refl)
hex_digit-DigitBack (suc (suc (suc (suc (suc (suc zero)))))) h = (refl, refl)
hex_digit-DigitBack (suc (suc (suc (suc (suc (suc (suc zero))))))) h = (refl, refl)
hex_digit-DigitBack (suc (suc (suc (suc (suc (suc (suc (suc zero)))))))) h = (refl, refl)
hex_digit-DigitBack (suc (suc (suc (suc (suc (suc (suc (suc (suc zero))))))))) h = (refl, refl)
hex_digit-DigitBack (suc (suc (suc (suc (suc (suc (suc (suc (suc (suc zero)))))))))) h =
    (refl, refl)
hex_digit-DigitBack (suc (suc (suc (suc (suc (suc (suc (suc (suc (suc (suc zero))))))))))) h =
    (refl, refl)
hex_digit-DigitBack (suc (suc (suc (suc (suc (suc (suc (suc (suc (suc (suc (suc zero)))))))))))) h =
    (refl, refl)
hex_digit-DigitBack
      (suc (suc (suc (suc (suc (suc (suc (suc (suc (suc (suc (suc (suc zero))))))))))))) h =
    (refl, refl)
hex_digit-DigitBack
      (suc (suc (suc (suc (suc (suc (suc (suc (suc (suc (suc (suc (suc (suc zero)))))))))))))) h =
    (refl, refl)
hex_digit-DigitBack
      (suc (suc (suc (suc (suc (suc (suc (suc (suc (suc (suc (suc (suc (suc (suc zero)))))))))))))))
      h =
    (refl, refl)
hex_digit-DigitBack
      (suc
        (suc (suc (suc (suc (suc (suc (suc (suc (suc (suc (suc (suc (suc (suc (suc d))))))))))))))))
      h =
    absurd (omega arith)

pub utf8-hex_byte :
    (b : ℕ)
    → b < 256
    → (utf8 (hex_byte b) ≡ code (hex_digit (b / 16)) ∷ code (hex_digit (b % 16)) ∷ [])
      × (hex_pair (code (hex_digit (b / 16))) (code (hex_digit (b % 16))) ≡ some b)
unfolding hex_byte utf8 hex_pair
utf8-hex_byte b h =
    let (first, high) = hex_digit-DigitBack (b / 16) (omega arith) in
    let (second, low) = hex_digit-DigitBack (b % 16) (omega arith) in
    (rw (first, second), rw (high, low, hex_pair) (ap some (omega arith)))

module _ (seen : List ℕ) where
  unescape_escaped :
      (b h l : ℕ) (rest : List ℕ)
      → hex_pair h l ≡ some b
      → unescape_from seen (b'-' ∷ h ∷ l ∷ rest) ≡ unescape_from (seen ++ b ∷ []) rest
  unfolding unescape_from
  unescape_escaped b h l rest e = rw (e, unescape_from)

  unescape_plain :
      (c : ℕ) (rest : List ℕ)
      → c ≢ b'-'
      → unescape_from seen (c ∷ rest) ≡ unescape_from (seen ++ c ∷ []) rest
  unfolding unescape_from
  unescape_plain c [] n = ground arith
  unescape_plain c (h ∷ []) n = ground arith
  unescape_plain c (h ∷ l ∷ rest) n = ground arith

unescape_plains :
    (seen bytes rest : List ℕ)
    → All (λ b. b ≢ b'-') bytes
    → unescape_from seen (bytes ++ rest) ≡ unescape_from (seen ++ bytes) rest
unescape_plains seen [] rest h = rw append-nil
unescape_plains seen (c ∷ bytes) rest h =
    unescape_plain seen c (bytes ++ rest) h.0
    ∙ unescape_plains (seen ++ c ∷ []) bytes rest h.1
    ∙ ap (λ l. unescape_from l rest) (append_assoc seen (c ∷ []) bytes)

unescape-escape_char :
    (seen bytes rest : List ℕ)
    → All (λ b. b < 256) bytes
    → unescape_from seen (utf8 (escape_char bytes "-") ++ rest) ≡ unescape_from (seen ++ bytes) rest
unfolding escape_char utf8
unescape-escape_char seen [] rest h = rw append-nil
unescape-escape_char seen (b ∷ bytes) rest h =
    let (digits, back) = utf8-hex_byte b h.0 in
    rw (utf8-append (hex_byte b) (escape_char bytes "-"), digits)
      (unescape_escaped seen b _ _ (utf8 (escape_char bytes "-") ++ rest) back
        ∙ unescape-escape_char (seen ++ b ∷ []) bytes rest h.1
        ∙ ap (λ l. unescape_from l rest) (append_assoc seen (b ∷ []) bytes))

module _ (tables : Unicode) where
  open tables use {is_lower, is_digit, is_lower_ascii, is_digit_ascii}

  -- A dash is always escaped.
  kept-ne_dash : (c : ℕ) → (not (is_lower c) && not (is_digit c)) ≡ false → c ≢ b'-'
  kept-ne_dash c h e = ground (arith, is_lower_ascii c, is_digit_ascii c)

  unescape-escape_to_dns_label :
      (seen : List ℕ) (s : String)
      → unescape_from seen (utf8 (escape_to_dns_label tables s)) ≡ returned (seen ++ utf8 s)
  unfolding escape_to_dns_label utf8 unescape_from
  unescape-escape_to_dns_label seen String.[] = rw append-nil
  unescape-escape_to_dns_label seen (String.◌∷◌ c s) =
      let bytes = utf8_char (code c) in
      let rest = utf8 (escape_to_dns_label tables s) in
      let onward =
        unescape-escape_to_dns_label (seen ++ bytes) s
        ∙ ap returned (append_assoc seen bytes (utf8 s)) in
      elim (Bool-cases (not (is_lower (code c)) && not (is_digit (code c)))) [
        | inl special ↦
            rw (special, utf8-append (escape_char bytes "-") (escape_to_dns_label tables s))
              (unescape-escape_char seen bytes rest (utf8_char-lt (code c) (code-lt c)) ∙ onward)
        | inr kept ↦
            rw
              (
                kept,
                utf8-append (String.◌∷◌ c String.[]) (escape_to_dns_label tables s),
                append-nil,
              )
              (unescape_plains seen bytes rest
                  (utf8_char-ne_dash (code c) (code-lt c) (kept-ne_dash (code c) kept))
                ∙ onward)
      ]

  -- Unescaping the bytes of an escaped label gives the bytes of the name that was escaped, whatever
  -- characters the name has.
  pub unescape-escape_to_primehub_label :
      (name : String)
      → unescape_primehub_label (utf8 (escape_to_primehub_label tables name)) ≡ returned (utf8 name)
  unfolding unescape_primehub_label escape_to_primehub_label unescape_dns_label utf8
  unescape-escape_to_primehub_label name =
      rw (utf8-append "escaped-" (escape_to_dns_label tables name))
        (ground (arith, unescape-escape_to_dns_label [] name))
