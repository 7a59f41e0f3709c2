-- ===== src/Escapism/Length.antt =====
-- An escaped name is longer than the name.
use Prim.Native.Char.{code}
use Prim.Native.String.{◌++◌ as ◌+++◌}
use text.Mathlib.TextLemmas.{nil-append, cons-append}
use primehub_controller.Prelude.{
  ℕ, suc, ◌+◌, ◌≤◌, String, Bool-cases, ◌≡◌, ◌≢◌, ap, inl, inr, arith, not, ◌&&◌,
}
use primehub_controller.Escapism.{
  Unicode, utf8_char, escape_char, escape_to_dns_label, escape_to_primehub_label,
}

-- The number of characters of a text.
abbrev size : String → ℕ
size String.[] = 0
size (String.◌∷◌ c s) = suc (size s)

size-append : (s t : String) → size (s +++ t) ≡ size s + size t
size-append String.[] t = rw nil-append (omega arith)
size-append (String.◌∷◌ c s) t = rw cons-append (omega (arith, size-append s t))

size-escape_char : (c : ℕ) → 1 ≤ size (escape_char (utf8_char c) "-")
unfolding escape_char utf8_char
size-escape_char c = ground arith

module _ (tables : Unicode) where
  open tables use {is_lower, is_digit}

  le-size-escape_to_dns_label : (s : String) → size s ≤ size (escape_to_dns_label tables s)
  unfolding escape_to_dns_label
  le-size-escape_to_dns_label String.[] = omega arith
  le-size-escape_to_dns_label (String.◌∷◌ c s) =
      let rest = le-size-escape_to_dns_label s in
      let one = size-escape_char (code c) in
      elim (Bool-cases (not (is_lower (code c)) && not (is_digit (code c)))) [
        | inl special ↦
            rw
              (
                special,
                size-append (escape_char (utf8_char (code c)) "-") (escape_to_dns_label tables s),
              )
              (omega arith)
        | inr kept ↦
            rw (kept, size-append (String.◌∷◌ c String.[]) (escape_to_dns_label tables s))
              (omega arith)
      ]

  -- No name is its own label.
  pub escape_to_primehub_label-ne : (name : String) → escape_to_primehub_label tables name ≢ name
  unfolding escape_to_primehub_label
  escape_to_primehub_label-ne name e =
      let longer = size-append "escaped-" (escape_to_dns_label tables name) in
      absurd (omega (arith, le-size-escape_to_dns_label name, longer, ap size e))
