-- ===== src/Escapism.antt =====
-- pkg/escapism/escapism.go: names escaped to labels, and back. A native `String` is a Go string of
-- valid UTF-8, as `range` decodes it; the unescaping functions index bytes, so they take a list of
-- bytes. `unicode.IsLower` and `unicode.IsDigit` are the tables of `Unicode`.
pub mod RoundTrip
pub mod Alphabet
pub mod Length
pub mod Samples
use Prim.Native.Char.{Char, code}
use Prim.Native.String.{◌++◌ as ◌+++◌}
use primehub_controller.Prelude.{
  ℕ, ◌+◌, ◌-◌, ◌*◌, ◌/◌, ◌%◌, ◌<◌, ◌≡◌, String, Bool, true, false, not, ◌&&◌, Option, none, some,
  List, [], ◌∷◌, ◌++◌, ltb, leb, ◌==◌, if◌then◌else◌, drop, length,
}

-- The tables are large. Of ASCII they hold the letters a to z and the digits 0 to 9.
pub record Unicode : Type 0 where
  pub is_lower : ℕ → Bool
  pub is_digit : ℕ → Bool
  pub is_lower_ascii : (c : ℕ) → c < 128 → is_lower c ≡ (leb b'a' c && leb c b'z')
  pub is_digit_ascii : (c : ℕ) → c < 128 → is_digit c ≡ (leb b'0' c && leb c b'9')

-- []byte(string(c)): the UTF-8 encoding of a code point. Each byte is a uint8.
unfoldable pub utf8_char : ℕ → List ℕ
utf8_char c =
    if ltb c 128
    then c ∷ []
    else if ltb c 2048
    then (192 + c / 64) ∷ (128 + c % 64) ∷ []
    else if ltb c 65536
    then (224 + c / 4096) ∷ (128 + c / 64 % 64) ∷ (128 + c % 64) ∷ []
    else ((240 + c / 262144) % 256)
      ∷ (128 + c / 4096 % 64)
      ∷ (128 + c / 64 % 64)
      ∷ (128 + c % 64)
      ∷ []

unfoldable pub utf8 : String → List ℕ
unfolding utf8_char
utf8 String.[] = []
utf8 (String.◌∷◌ c s) = utf8_char (code c) ++ utf8 s

-- hex.EncodeToString of one byte, in lower case.
pub hex_digit : ℕ → Char
hex_digit d =
    if d == 0
    then "0"
    else if d == 1
    then "1"
    else if d == 2
    then "2"
    else if d == 3
    then "3"
    else if d == 4
    then "4"
    else if d == 5
    then "5"
    else if d == 6
    then "6"
    else if d == 7
    then "7"
    else if d == 8
    then "8"
    else if d == 9
    then "9"
    else if d == 10
    then "a"
    else if d == 11
    then "b"
    else if d == 12
    then "c"
    else if d == 13
    then "d"
    else if d == 14
    then "e"
    else "f"

pub hex_byte : ℕ → String
unfolding hex_digit
hex_byte b = String.◌∷◌ (hex_digit (b / 16)) (String.◌∷◌ (hex_digit (b % 16)) String.[])

-- func escapeChar
escape_char : List ℕ → Char → String
unfolding hex_byte
escape_char [] escape = String.[]
escape_char (b ∷ bytes) escape = String.◌∷◌ escape (hex_byte b +++ escape_char bytes escape)

module _ (tables : Unicode) where
  open tables use {is_lower, is_digit}

  -- func EscapeToDNSLabel
  unfoldable pub escape_to_dns_label : String → String
  unfolding escape_char
  escape_to_dns_label String.[] = String.[]
  escape_to_dns_label (String.◌∷◌ c input) =
      (if not (is_lower (code c)) && not (is_digit (code c))
        then escape_char (utf8_char (code c)) "-"
        else String.◌∷◌ c String.[])
      +++ escape_to_dns_label input

  -- func EscapeToPrimehubLabel
  unfoldable pub escape_to_primehub_label : String → String
  escape_to_primehub_label input = "escaped-" +++ escape_to_dns_label input

-- hex.DecodeString of two bytes; both cases of the letters are digits.
from_hex_char : ℕ → Option ℕ
from_hex_char c =
    if leb b'0' c && leb c b'9'
    then some (c - b'0')
    else if leb b'a' c && leb c b'f'
    then some (c - b'a' + 10)
    else if leb b'A' c && leb c b'F'
    then some (c - b'A' + 10)
    else none

pub hex_pair : ℕ → ℕ → Option ℕ
unfolding from_hex_char
hex_pair h l = elim (from_hex_char h) [
  | none ↦ none
  | some a ↦ elim (from_hex_char l) [ none ↦ none | some b ↦ some (a * 16 + b) ]
]

-- A slice expression past the end of the text is a panic.
pub data Unescaped : Type 0 where
  returned : List ℕ → Unescaped
  out_of_range : Unescaped

-- The loop of UnescapeDNSLabel, with `bytestring` and the bytes from `index` on.
unescape_from : List ℕ → List ℕ → Unescaped
unfolding hex_pair
unescape_from bytestring [] = returned bytestring
unescape_from bytestring (c ∷ []) =
    if c == b'-' then out_of_range else returned (bytestring ++ c ∷ [])
unescape_from bytestring (c ∷ h ∷ []) = elim (c == b'-') [
  | true ↦ out_of_range
  | false ↦ unescape_from (bytestring ++ c ∷ []) (h ∷ [])
]
unescape_from bytestring (c ∷ h ∷ l ∷ rest) = elim (c == b'-') [
  | true ↦ elim (hex_pair h l) [
    | none ↦ returned []
    | some b ↦ unescape_from (bytestring ++ b ∷ []) rest
  ]
  | false ↦ unescape_from (bytestring ++ c ∷ []) (h ∷ l ∷ rest)
]

-- func UnescapeDNSLabel
unfoldable pub unescape_dns_label : List ℕ → Unescaped
unfolding unescape_from
unescape_dns_label input = unescape_from [] input

-- func UnescapePrimehubLabel
unfoldable pub unescape_primehub_label : List ℕ → Unescaped
unescape_primehub_label input =
    if ltb (length input) 8 then out_of_range else unescape_dns_label (drop 8 input)
