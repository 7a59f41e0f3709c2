-- ===== src/License/Authenticity.antt =====
-- Which license keys are accepted.
use text.Mathlib.TextEquality.{eq_iff}
use primehub_controller.Prelude.{
  ℕ, String, Bool-cases, Option-cases, Result-cases, str_eq, Option, none, some, List, [], ◌∷◌,
  Result, ok, err, Error, ◌≡◌, refl, ap, ◌⊎◌, inl, inr, ℤ, arith, lookup, ◌≢◌,
}
use primehub_controller.License.{
  Tools, LicenseState, Content, split_dots, verify_decoded, verify_parts, verify, decode,
  type_check, expiry_status, with_content, new_license,
}

err≢ok : {A : Type 0} {e : Error} {a : A} → (Result.err e ≡ Result.ok a) → ⊥
err≢ok h = cc

module _ (tools : Tools) where
  open tools use {decode_hex, verify_signature, decode_base64, yaml}

  -- A license without a platform type suits every platform, and a controller without one takes every
  -- license.
  abbrev pub Suits : Content → String → Type 0
  Suits content platform_type =
      (lookup "platform_type" content ≡ none)
      ⊎ (platform_type ≡ "")
      ⊎ (lookup "platform_type" content ≡ some platform_type)

  -- A key is a text and its signature, joined by the one dot; the text is the base64 of the content.
  pub record Authentic (signed_license platform_type : String) : Type 0 where
    pub text : String
    pub sig : String
    pub signature : List ℕ
    pub decoded : String
    pub parts : split_dots signed_license ≡ text ∷ sig ∷ []
    pub hex : decode_hex sig ≡ ok signature
    pub signed : verify_signature text signature ≡ none
    pub base64 : decode_base64 text ≡ ok decoded
    pub suits : Suits (yaml decoded) platform_type

  verify_parts-ok :
      (parts : List String)
      → verify_parts tools parts ≡ ok tt
      → (text : String) × (sig : String) × (signature : List ℕ) × (parts ≡ text ∷ sig ∷ [])
        × (decode_hex sig ≡ ok signature)
        × (verify_signature text signature ≡ none)
  unfolding verify_parts verify_decoded
  verify_parts-ok [] h = ground arith
  verify_parts-ok (text ∷ []) h = ground arith
  verify_parts-ok (text ∷ sig ∷ x ∷ parts) h = ground arith
  verify_parts-ok (text ∷ sig ∷ []) h = elim (Result-cases (decode_hex sig)) [
    | inl (e, failed) ↦ absurd (ground arith)
    | inr (signature, hex) ↦ (text, sig, signature, refl, hex, ground arith)
  ]

  verify-ok :
      (signed_license text sig : String) (signature : List ℕ)
      → split_dots signed_license ≡ text ∷ sig ∷ []
      → decode_hex sig ≡ ok signature
      → verify_signature text signature ≡ none
      → verify tools signed_license ≡ ok tt
  unfolding verify verify_parts verify_decoded
  verify-ok signed_license text sig signature parts hex signed =
      rw (parts, hex, signed, verify, verify_decoded) refl

  type_check-Suits :
      (content : Content) (platform_type : String)
      → type_check tools content platform_type ≡ ok tt
      → Suits content platform_type
  unfolding type_check
  type_check-Suits content platform_type h = elim (Option-cases (lookup "platform_type" content)) [
    | inl missing ↦ inl missing
    | inr (value, found) ↦ elim (Bool-cases (str_eq platform_type "")) [
      | inl any ↦ inr (inl ((eq_iff platform_type "").0 any))
      | inr named ↦ elim (Bool-cases (str_eq platform_type value)) [
        | inl same ↦ inr (inr (rw ((eq_iff platform_type value).0 same) found))
        | inr other ↦ absurd (err≢ok (rw (found, named, other, type_check) at h))
      ]
    ]
  ]

  Suits-type_check :
      (content : Content) (platform_type : String)
      → Suits content platform_type
      → type_check tools content platform_type ≡ ok tt
  unfolding type_check
  Suits-type_check content platform_type (inl missing) = rw (missing, type_check) refl
  Suits-type_check content platform_type (inr (inl any)) =
      elim (Option-cases (lookup "platform_type" content)) [
        | inl missing ↦ rw (missing, type_check) refl
        | inr (value, found) ↦ rw (found, (eq_iff platform_type "").1 any, type_check) refl
      ]
  Suits-type_check content platform_type (inr (inr found)) =
      elim (Bool-cases (str_eq platform_type "")) [
        | inl any ↦ rw (found, any, type_check) refl
        | inr named ↦
            rw (found, named, (eq_iff platform_type platform_type).1 refl, type_check) refl
      ]

  decode-ok :
      (signed_license text sig decoded : String)
      → split_dots signed_license ≡ text ∷ sig ∷ []
      → decode_base64 text ≡ ok decoded
      → decode tools signed_license ≡ (yaml decoded, none)
  unfolding decode
  decode-ok signed_license text sig decoded parts base64 = rw (parts, base64, decode) refl

  decode-err :
      (signed_license text sig : String) (e : Error)
      → split_dots signed_license ≡ text ∷ sig ∷ []
      → decode_base64 text ≡ err e
      → decode tools signed_license ≡ ([], some e)
  unfolding decode
  decode-err signed_license text sig e parts base64 = rw (parts, base64, decode) refl

  new_license-decoded :
      (now : ℤ) (signed_license platform_type : String) (content : Content) (e : Option Error)
      → verify tools signed_license ≡ ok tt
      → decode tools signed_license ≡ (content, e)
      → new_license tools now signed_license platform_type
        ≡ with_content tools now signed_license platform_type content e
  unfolding new_license
  new_license-decoded now signed_license platform_type content e verified decoded =
      rw (verified, new_license)
        (ap (λ r. with_content tools now signed_license platform_type r.0 r.1) decoded)

  valid-Authentic :
      (now : ℤ) (signed_license platform_type : String)
      → (new_license tools now signed_license platform_type).status ≢ LicenseState.invalid
      → Authentic signed_license platform_type
  unfolding new_license with_content
  valid-Authentic now signed_license platform_type h =
      elim (Result-cases (verify tools signed_license)) [
        | inl (e, failed) ↦ absurd (h (rw (failed, new_license) refl))
        | inr (checked, verified) ↦
            let (text, sig, signature, parts, hex, signed) =
              verify_parts-ok (split_dots signed_license) (unfold verify in verified) in
            elim (Result-cases (decode_base64 text)) [
              | inl (e, failed) ↦ absurd (
                  h (
                    rw
                      (
                        new_license-decoded now signed_license platform_type [] (some e) verified
                            (decode-err signed_license text sig e parts failed),
                        with_content,
                      )
                      refl))
              | inr (decoded, base64) ↦
                  elim (Result-cases (type_check tools (yaml decoded) platform_type)) [
                    | inl (e, failed) ↦ absurd (
                        h (
                          rw
                            (
                              new_license-decoded now signed_license platform_type (yaml decoded)
                                  none verified
                                  (decode-ok signed_license text sig decoded parts base64),
                              failed,
                              with_content,
                            )
                            refl))
                    | inr (_, suits) ↦ record {
                      text = text;
                      sig = sig;
                      signature = signature;
                      decoded = decoded;
                      parts = parts;
                      hex = hex;
                      signed = signed;
                      base64 = base64;
                      suits = type_check-Suits (yaml decoded) platform_type suits;
                    }
                  ]
            ]
      ]

  -- A key that NewLicense does not call invalid is authentic, and an authentic key gives the license
  -- with the content that was signed, which is unexpired or expired by its date alone.
  pub new_license-Authentic :
      (now : ℤ) (signed_license platform_type : String)
      → ((new_license tools now signed_license platform_type).status ≢ LicenseState.invalid
          → Authentic signed_license platform_type)
        × ((a : Authentic signed_license platform_type)
            → new_license tools now signed_license platform_type ≡ record {
              signed_license = signed_license;
              decoded = yaml a.decoded;
              status = expiry_status tools now (yaml a.decoded);
              error = none;
            })
  unfolding with_content
  new_license-Authentic now signed_license platform_type = (
    valid-Authentic now signed_license platform_type,
    (λ a.
        rw
          (
            new_license-decoded now signed_license platform_type (yaml a.decoded) none
                (verify-ok signed_license a.text a.sig a.signature a.parts a.hex a.signed)
                (decode-ok signed_license a.text a.sig a.decoded a.parts a.base64),
            Suits-type_check (yaml a.decoded) platform_type a.suits,
            with_content,
          )
          refl),
  )
