-- ===== src/LicenseController/Limits.antt =====
-- Where the limits that the controller writes come from.
use primehub_controller.Prelude.{
  String, Bool-cases, Option-cases, Result-cases, Option, none, some, List, [], ◌∷◌, Error, ◌≡◌,
  refl, ◌≢◌, ap, ◌∙◌, sym, ◌⊎◌, inl, inr, ℤ, All, All-append,
}
use primehub_controller.License.{Tools, LicenseState, License, expiry_status, new_license}
use primehub_controller.License.Authenticity.{Authentic, new_license-Authentic}
use primehub_controller.LicenseController.{
  LicenseStatus, Write, create_license, update_status, write_secret, Cluster, Outcome,
  generate_status, build_secret, default_status, status_from, status_of, written, update_secret,
  store, without_license, reconcile_license,
}
use primehub_controller.JobStatus.{is_not_found}

module _ (tools : Tools) (default_key platform_type : String) (now : ℤ) where
  -- The status of the default license, or what an authentic key says, with its expiry.
  abbrev pub IsLicensed : LicenseStatus → Type 0
  IsLicensed status =
      (status ≡ default_status tools default_key)
      ⊎ ((signed_license : String) × (a : Authentic tools signed_license platform_type) × (status
            ≡ record (generate_status tools (tools.yaml a.decoded)) {
              expired = some (expiry_status tools now (tools.yaml a.decoded));
            }))

  abbrev pub WritesLicensed : Write → Type 0
  WritesLicensed (create_license status) = IsLicensed status
  WritesLicensed (update_status status) = IsLicensed status
  WritesLicensed (write_secret content) =
      (status : LicenseStatus) × IsLicensed status × (content ≡ build_secret tools status)

  module _ (cluster : Cluster) where
    abbrev Writes : Outcome → Type 0
    Writes outcome = All WritesLicensed outcome.writes

    -- What the controller makes of a license.
    abbrev granted : License → LicenseState → LicenseStatus
    granted lic state = record (generate_status tools lic.decoded) { expired = some state }

    granted-IsLicensed :
        (signed_license : String) (state : LicenseState)
        → (new_license tools now signed_license platform_type).status ≡ state
        → state ≢ LicenseState.invalid
        → IsLicensed (granted (new_license tools now signed_license platform_type) state)
    granted-IsLicensed signed_license state e valid =
        let lic = new_license tools now signed_license platform_type in
        let authentic = new_license-Authentic tools now signed_license platform_type in
        let a = authentic.0 (λ h. valid (sym e ∙ h)) in
        inr (
          signed_license,
          a,
          ap (granted lic) (sym e) ∙ ap (λ l. granted l l.status) (authentic.1 a),
        )

    status_from-IsLicensed :
        (signed_license : String) (state : LicenseState)
        → (new_license tools now signed_license platform_type).status ≡ state
        → IsLicensed (
            status_from tools default_key platform_type now cluster
              (new_license tools now signed_license platform_type)
              state)
    unfolding status_from
    status_from-IsLicensed signed_license LicenseState.invalid e = inl refl
    status_from-IsLicensed signed_license LicenseState.expired e =
        granted-IsLicensed signed_license LicenseState.expired e (λ h. cc)
    status_from-IsLicensed signed_license LicenseState.unexpired e =
        granted-IsLicensed signed_license LicenseState.unexpired e (λ h. cc)

    status_of-IsLicensed :
        (signed_license : String)
        → IsLicensed (status_of tools default_key platform_type now cluster signed_license)
    unfolding status_of
    status_of-IsLicensed signed_license = status_from-IsLicensed signed_license _ refl

    written-Writes :
        (writes : List Write) (w : Write) (e : Option Error)
        → All WritesLicensed writes
        → WritesLicensed w
        → Writes (written tools default_key platform_type now cluster writes w e)
    unfolding written
    written-Writes writes w none h k = All-append WritesLicensed writes (w ∷ []) h (k, tt)
    written-Writes writes w (some e) h k = h

    update_secret-Writes :
        (writes : List Write) (status : LicenseStatus)
        → All WritesLicensed writes
        → IsLicensed status
        → Writes (update_secret tools default_key platform_type now cluster writes status)
    unfolding update_secret
    update_secret-Writes writes status h k = elim (Option-cases cluster.set_reference_error) [
      | inr (e, failed) ↦ rw (failed, update_secret) h
      | inl set ↦ elim (Option-cases cluster.get_secret_error) [
        | inl found ↦
            rw (set, found, update_secret)
              (written-Writes writes (write_secret (build_secret tools status))
                cluster.update_secret_error h (status, k, refl))
        | inr (e, failed) ↦ elim (Bool-cases (is_not_found e)) [
          | inl missing ↦
              rw (set, failed, missing, update_secret)
                (written-Writes writes (write_secret (build_secret tools status))
                  cluster.create_secret_error h (status, k, refl))
          | inr other ↦ rw (set, failed, other, update_secret) h
        ]
      ]
    ]

    store-Writes :
        (writes : List Write) (signed_license : String)
        → All WritesLicensed writes
        → Writes (store tools default_key platform_type now cluster writes signed_license)
    unfolding store
    store-Writes writes signed_license h =
        let k = status_of-IsLicensed signed_license in
        elim (Option-cases cluster.update_status_error) [
          | inr (e, failed) ↦ rw (failed, store) h
          | inl stored ↦
              rw (stored, store)
                (update_secret-Writes _ _ (All-append WritesLicensed writes _ h (k, tt)) k)
        ]

    without_license-Writes :
        (e : Error) → Writes (without_license tools default_key platform_type now cluster e)
    unfolding without_license
    without_license-Writes e = elim (Bool-cases (is_not_found e)) [
      | inr other ↦ rw (other, without_license) tt
      | inl missing ↦ elim (Option-cases cluster.create_license_error) [
        | inl made ↦
            rw (missing, made, without_license)
              (store-Writes (create_license (default_status tools default_key) ∷ []) ""
                (inl refl, tt))
        | inr (x, failed) ↦ rw (missing, failed, without_license) tt
      ]
    ]

    -- Every license, status and secret that Reconcile writes has the limits of the default license, or
    -- those that an authentic key for the platform grants, whatever the cluster answers.
    pub reconcile_license-IsLicensed :
        All WritesLicensed (reconcile_license tools default_key platform_type now cluster).writes
    unfolding reconcile_license
    reconcile_license-IsLicensed = elim (Bool-cases cluster.in_namespace) [
      | inr elsewhere ↦ rw (elsewhere, reconcile_license) tt
      | inl here ↦ elim (Result-cases cluster.get_license) [
        | inl (e, failed) ↦ rw (here, failed, reconcile_license) (without_license-Writes e)
        | inr (signed_license, found) ↦
            rw (here, found, reconcile_license) (store-Writes [] signed_license tt)
      ]
    ]
