-- ===== src/License.antt =====
-- ee/pkg/license: what makes a license key valid. Cryptography, base64, YAML and the parsing of numbers
-- and times are a parameter.
pub mod Authenticity
pub mod Samples
use Prim.Native.String.{◌++◌ as ◌+++◌}
use Prim.Native.Char.{code}
use primehub_controller.Prelude.{
  ℕ, String, ◌==◌, str_eq, Bool, true, false, Option, none, some, List, [], ◌∷◌, Result, ok, err,
  Error, not_found, message, ◌>>=◌, ℤ, pos, negsuc, ltb_ℤ, if◌then◌else◌, lookup, not,
}

-- The other code that ee/pkg/license calls. `verify_signature` is VerifyPKCS1v15 under PUBLIC_PEM of
-- the SHA-256 of a message, `yaml` the map that Unmarshal fills (empty or partly filled on an error),
-- `parse_time` the zero time on an error and `atoi` a value whether there is an error or not.
pub record Tools : Type 0 where
  pub decode_hex : String → Result (List ℕ)
  pub verify_signature : String → List ℕ → Option Error
  pub decode_base64 : String → Result String
  pub yaml : String → List (String × String)
  pub parse_time : String → ℤ
  pub atoi : String → ℤ
  pub itoa : ℤ → String
  pub error_text : Error → String

pub data LicenseState : Type 0 where
  expired unexpired invalid : LicenseState

abbrev pub Content : Type 0
Content = List (String × String)

-- type License
pub record License : Type 0 where
  pub signed_license : String
  pub decoded : Content
  pub status : LicenseState
  pub error : Option Error

-- strings.Split(s, "."), which has an element always.
abbrev pub on_head : String → List String → List String
on_head c [] = c ∷ []
on_head c (part ∷ parts) = (c +++ part) ∷ parts

unfoldable pub split_dots : String → List String
split_dots String.[] = "" ∷ []
split_dots (String.◌∷◌ c s) =
    let rest = split_dots s in if code c == b'.' then "" ∷ rest else on_head (String.◌∷◌ c "") rest

abbrev pub first_part : List String → String
first_part [] = ""
first_part (part ∷ parts) = part

module _ (tools : Tools) where
  open tools use {decode_hex, verify_signature, decode_base64, yaml, parse_time, error_text}

  abbrev pub Checked : Type 0
  Checked = Result (Unit {0})

  verify_decoded : String → Result (List ℕ) → Checked
  verify_decoded text (err e) = err (message ("decode license signature failed: " +++ error_text e))
  verify_decoded text (ok signature) = elim (verify_signature text signature) [
    | none ↦ ok tt
    | some e ↦ err (message ("license verification failed: " +++ error_text e))
  ]

  verify_parts : List String → Checked
  unfolding verify_decoded
  verify_parts (text ∷ sig ∷ []) = verify_decoded text (decode_hex sig)
  verify_parts _ = err (message "malformed signed license key")

  -- func Verify
  unfoldable pub verify : String → Checked
  unfolding verify_parts
  verify signed_license = verify_parts (split_dots signed_license)

  -- func Decode: the content and the error.
  unfoldable pub decode : String → Content × Option Error
  decode signed_license = elim (decode_base64 (first_part (split_dots signed_license))) [
    | ok decoded ↦ (yaml decoded, none)
    | err e ↦ ([], some e)
  ]

  -- func TypeCheck
  unfoldable pub type_check : Content → String → Checked
  type_check content platform_type = elim (lookup "platform_type" content) [
    | none ↦ ok tt
    | some value ↦
        if str_eq platform_type ""
        then ok tt
        else if str_eq platform_type value
        then ok tt
        else err (
            message (
              "invalid platform type: expected \"" +++ platform_type +++ "\" but got \"" +++ value
              +++ "\""))
  ]

  -- A key that is missing in a Go map reads as the empty text.
  abbrev pub text_of : String → Content → String
  text_of key content = elim (lookup key content) [ none ↦ "" | some value ↦ value ]

  -- func expiryStatus
  unfoldable pub expiry_status : ℤ → Content → LicenseState
  expiry_status now content =
      if ltb_ℤ now (parse_time (text_of "expired_at" content))
      then LicenseState.unexpired
      else LicenseState.expired

  abbrev pub refuse : String → Content → Error → License
  refuse signed_license decoded e = record {
    signed_license = signed_license;
    decoded = decoded;
    status = LicenseState.invalid;
    error = some e;
  }

  with_content : ℤ → String → String → Content → Option Error → License
  with_content now signed_license platform_type content (some e) = refuse signed_license content e
  with_content now signed_license platform_type content none =
      elim (type_check content platform_type) [
        | err e ↦ refuse signed_license content e
        | ok checked ↦ record {
          signed_license = signed_license;
          decoded = content;
          status = expiry_status now content;
          error = none;
        }
      ]

  -- func NewLicense
  unfoldable pub new_license : ℤ → String → String → License
  unfolding with_content
  new_license now signed_license platform_type = elim (verify signed_license) [
    | err e ↦ refuse signed_license [] e
    | ok verified ↦
        let result = decode signed_license in
        with_content now signed_license platform_type result.0 result.1
  ]
