-- ===== src/Escapism/Alphabet.antt =====
-- Which characters an escaped label has.
use Prim.Native.Char.{Char, code}
use mathlib.Core.List.{append-nil}
use primehub_controller.Prelude.{
  ℕ, zero, suc, ◌/◌, ◌%◌, ◌<◌, ◌≤◌, ◌≡◌, refl, String, Bool, true, List, [], ◌∷◌, ◌++◌, leb, ◌==◌,
  arith, All, inl, inr, Bool-cases, not, ◌&&◌, ◌||◌, false,
}
use primehub_controller.Escapism.{
  Unicode, utf8_char, utf8, hex_digit, hex_byte, escape_char, escape_to_dns_label,
  escape_to_primehub_label,
}
use primehub_controller.Escapism.RoundTrip.{utf8-append, utf8_char-lt, utf8-hex_byte}

-- A lower-case letter, a digit or a dash.
abbrev pub is_label_byte : ℕ → Bool
is_label_byte b = leb b'a' b && leb b b'z' || (leb b'0' b && leb b b'9' || b == b'-')

abbrev pub IsLabel : List ℕ → Type 0
IsLabel = All (λ b. is_label_byte b ≡ true)

abbrev pub IsAscii : String → Type 0
IsAscii String.[] = Unit {0}
IsAscii (String.◌∷◌ c s) = (code c < 128) × IsAscii s

IsLabel-append : (xs ys : List ℕ) → IsLabel xs → IsLabel ys → IsLabel (xs ++ ys)
IsLabel-append [] ys h k = k
IsLabel-append (x ∷ xs) ys h k = (h.0, IsLabel-append xs ys h.1 k)

hex_digit-label : (d : ℕ) → d < 16 → is_label_byte (code (hex_digit d)) ≡ true
unfolding hex_digit
hex_digit-label zero h = refl
hex_digit-label (suc zero) h = refl
hex_digit-label (suc (suc zero)) h = refl
hex_digit-label (suc (suc (suc zero))) h = refl
hex_digit-label (suc (suc (suc (suc zero)))) h = refl
hex_digit-label (suc (suc (suc (suc (suc zero))))) h = refl
hex_digit-label (suc (suc (suc (suc (suc (suc zero)))))) h = refl
hex_digit-label (suc (suc (suc (suc (suc (suc (suc zero))))))) h = refl
hex_digit-label (suc (suc (suc (suc (suc (suc (suc (suc zero)))))))) h = refl
hex_digit-label (suc (suc (suc (suc (suc (suc (suc (suc (suc zero))))))))) h = refl
hex_digit-label (suc (suc (suc (suc (suc (suc (suc (suc (suc (suc zero)))))))))) h = refl
hex_digit-label (suc (suc (suc (suc (suc (suc (suc (suc (suc (suc (suc zero))))))))))) h = refl
hex_digit-label (suc (suc (suc (suc (suc (suc (suc (suc (suc (suc (suc (suc zero)))))))))))) h =
    refl
hex_digit-label (suc (suc (suc (suc (suc (suc (suc (suc (suc (suc (suc (suc (suc zero)))))))))))))
      h =
    refl
hex_digit-label
      (suc (suc (suc (suc (suc (suc (suc (suc (suc (suc (suc (suc (suc (suc zero)))))))))))))) h =
    refl
hex_digit-label
      (suc (suc (suc (suc (suc (suc (suc (suc (suc (suc (suc (suc (suc (suc (suc zero)))))))))))))))
      h =
    refl
hex_digit-label
      (suc
        (suc (suc (suc (suc (suc (suc (suc (suc (suc (suc (suc (suc (suc (suc (suc n))))))))))))))))
      h =
    absurd (omega arith)

escape_char-IsLabel :
    (bytes : List ℕ) → All (λ b. b < 256) bytes → IsLabel (utf8 (escape_char bytes "-"))
unfolding escape_char utf8
escape_char-IsLabel [] h = tt
escape_char-IsLabel (b ∷ bytes) h =
    rw (utf8-append (hex_byte b) (escape_char bytes "-"), (utf8-hex_byte b h.0).0)
      (
        refl,
        (
          hex_digit-label (b / 16) (omega arith),
          (hex_digit-label (b % 16) (omega arith), escape_char-IsLabel bytes h.1),
        ),
      )

module _ (tables : Unicode) where
  open tables use {is_lower, is_digit, is_lower_ascii, is_digit_ascii}

  kept-IsLabel :
      (c : ℕ) → c < 128 → (not (is_lower c) && not (is_digit c)) ≡ false → IsLabel (utf8_char c)
  unfolding utf8_char
  kept-IsLabel c h e = ground (arith, is_lower_ascii c, is_digit_ascii c)

  escape_to_dns_label-IsLabel :
      (s : String) → IsAscii s → IsLabel (utf8 (escape_to_dns_label tables s))
  unfolding escape_to_dns_label utf8
  escape_to_dns_label-IsLabel String.[] h = tt
  escape_to_dns_label-IsLabel (String.◌∷◌ c s) h =
      let rest = escape_to_dns_label tables s in
      let onward = escape_to_dns_label-IsLabel s h.1 in
      elim (Bool-cases (not (is_lower (code c)) && not (is_digit (code c)))) [
        | inl special ↦
            rw (special, utf8-append (escape_char (utf8_char (code c)) "-") rest)
              (IsLabel-append _ _
                (escape_char-IsLabel (utf8_char (code c)) (utf8_char-lt (code c) (omega arith)))
                onward)
        | inr kept ↦
            rw (kept, utf8-append (String.◌∷◌ c String.[]) rest, append-nil)
              (IsLabel-append (utf8_char (code c)) _ (kept-IsLabel (code c) h.0 kept) onward)
      ]

  -- The label of a name of ASCII characters has only lower-case letters, digits and dashes.
  pub escape_to_primehub_label-IsLabel :
      (name : String) → IsAscii name → IsLabel (utf8 (escape_to_primehub_label tables name))
  unfolding escape_to_primehub_label utf8
  escape_to_primehub_label-IsLabel name h =
      rw (utf8-append "escaped-" (escape_to_dns_label tables name)) (
        IsLabel-append (utf8 "escaped-") _
          (refl, (refl, (refl, (refl, (refl, (refl, (refl, (refl, tt))))))))
          (escape_to_dns_label-IsLabel name h))

  -- A character beyond ASCII that the tables call lower case is kept as it is, so the label of a name
  -- that begins with one is no label.
  pub escape_to_dns_label-not_IsLabel :
      (c : Char) (name : String)
      → 128 ≤ code c
      → is_lower (code c) ≡ true
      → ¬ IsLabel (utf8 (escape_to_dns_label tables (String.◌∷◌ c name)))
  unfolding escape_to_dns_label
  escape_to_dns_label-not_IsLabel c name large lower label =
      not_label (
        rw (lower, utf8-append (String.◌∷◌ c String.[]) (escape_to_dns_label tables name)) at label)
    where
      not_label :
          ¬ IsLabel (utf8 (String.◌∷◌ c String.[]) ++ utf8 (escape_to_dns_label tables name))
      not_label h = absurd (unfold utf8 utf8_char in ground arith)
