-- ===== src/License/Samples.antt =====
-- A key that a small set of tools accepts, and one that it refuses.
use primehub_controller.Prelude.{
  ◌≡◌, ◌≢◌, refl, str_eq, none, some, [], ◌∷◌, ok, err, message, pos, negsuc, ltb_ℤ, if◌then◌else◌,
  lookup,
}
use primehub_controller.License.{
  Tools, LicenseState, split_dots, verify_decoded, verify_parts, verify, decode, type_check,
  expiry_status, with_content, new_license,
}
use primehub_controller.License.Authenticity.{Authentic, new_license-Authentic}

abbrev pub toy : Tools
toy = record {
  decode_hex = λ sig. if str_eq sig "aa" then ok (170 ∷ []) else err (message "odd length");
  verify_signature =
      λ text signature. if str_eq text "text" then none else some (message "mismatch");
  decode_base64 = λ text. ok "content";
  yaml = λ text. ("expired_at", "later") ∷ ("platform_type", "deploy") ∷ [];
  parse_time = λ text. if str_eq text "later" then pos 100 else pos 0;
  atoi = λ text. if str_eq text "-1" then negsuc 0 else pos 0;
  itoa = λ n. if ltb_ℤ n (pos 0) then "-1" else "0";
  error_text = λ e. "";
}

signed_key : (new_license toy (pos 50) "text.aa" "deploy").status ≡ LicenseState.unexpired
unfolding new_license with_content verify verify_parts verify_decoded decode type_check
    expiry_status split_dots lookup
signed_key = refl

expired_key : (new_license toy (pos 100) "text.aa" "deploy").status ≡ LicenseState.expired
unfolding new_license with_content verify verify_parts verify_decoded decode type_check
    expiry_status split_dots lookup
expired_key = refl

other_platform : (new_license toy (pos 50) "text.aa" "enterprise").status ≡ LicenseState.invalid
unfolding new_license with_content verify verify_parts verify_decoded decode type_check
    expiry_status split_dots lookup
other_platform = refl

new_license-Authentic_example :
    ((new_license toy (pos 50) "text.aa" "deploy").status ≢ LicenseState.invalid
      → Authentic toy "text.aa" "deploy")
    × ((a : Authentic toy "text.aa" "deploy")
        → new_license toy (pos 50) "text.aa" "deploy" ≡ record {
          signed_license = "text.aa";
          decoded = toy.yaml a.decoded;
          status = expiry_status toy (pos 50) (toy.yaml a.decoded);
          error = none;
        })
new_license-Authentic_example = new_license-Authentic toy (pos 50) "text.aa" "deploy"
