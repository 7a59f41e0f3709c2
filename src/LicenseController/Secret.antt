-- ===== src/LicenseController/Secret.antt =====
-- What a reader of the secret of the license finds in it.
use primehub_controller.Prelude.{
  String, Option, ℤ, pos, negsuc, ◌≡◌, refl, ap, lookup, Option-cases, inl, inr, ◌⊎◌, ◌∙◌, All,
  All-map,
}
use primehub_controller.License.{Tools, LicenseState, Content, decode}
use primehub_controller.License.Authenticity.{Authentic}
use primehub_controller.LicenseController.{
  get_int_field, generate_status, build_secret, default_status, Write, create_license,
  update_status, write_secret, Cluster, reconcile_license,
}
use primehub_controller.LicenseController.Limits.{WritesLicensed, reconcile_license-IsLicensed}

-- The numbers that Atoi gives, and the defaults, read back from what Itoa prints.
pub record PrintsNumbers (tools : Tools) : Type 0 where
  pub printed : (text : String) → tools.atoi (tools.itoa (tools.atoi text)) ≡ tools.atoi text
  pub unlimited : tools.atoi (tools.itoa (negsuc 0)) ≡ negsuc 0
  pub none_at_all : tools.atoi (tools.itoa (pos 0)) ≡ pos 0

module _ (tools : Tools) (default_key platform_type : String) (now : ℤ) where
  -- What generateStatus reads in a secret is what it reads in the default key, or in an authentic one.
  abbrev pub ReadsLicensed : Write → Type 0
  ReadsLicensed (create_license status) = Unit
  ReadsLicensed (update_status status) = Unit
  ReadsLicensed (write_secret content) =
      (generate_status tools content ≡ generate_status tools (decode tools default_key).0)
      ⊎ ((signed_license : String) × (a : Authentic tools signed_license platform_type)
          × (generate_status tools content ≡ generate_status tools (tools.yaml a.decoded)))

module _ (tools : Tools) (prints : PrintsNumbers tools) where
  get_int_field-printed :
      (content : Content) (key : String) (default_value : ℤ)
      → tools.atoi (tools.itoa default_value) ≡ default_value
      → tools.atoi (tools.itoa (get_int_field tools content key default_value))
        ≡ get_int_field tools content key default_value
  unfolding get_int_field
  get_int_field-printed content key default_value h = elim (Option-cases (lookup key content)) [
    | inl absent ↦ rw (absent, get_int_field) h
    | inr (text, present) ↦ rw (present, get_int_field) (prints.printed text)
  ]

  -- generateStatus on the data of the secret of a status that it made gives the status back, without
  -- the expiry and the reason, where Atoi reads the numbers that Itoa prints.
  pub generate_status-build_secret :
      (content : Content) (expired : Option LicenseState) (reason : String)
      → generate_status tools (
          build_secret tools
            (record (generate_status tools content) { expired = expired; reason = reason }))
        ≡ generate_status tools content
  unfolding generate_status build_secret lookup
  generate_status-build_secret content expired reason =
      let user = get_int_field-printed content "max_user" (negsuc 0) prints.unlimited in
      let group = get_int_field-printed content "max_group" (negsuc 0) prints.unlimited in
      let node = get_int_field-printed content "max_node" (negsuc 0) prints.unlimited in
      let deploy = get_int_field-printed content "max_model_deploy" (pos 0) prints.none_at_all in
      rw (user, group, node, deploy) refl

  module _ (default_key platform_type : String) (now : ℤ) where
    reads :
        (w : Write)
        → WritesLicensed tools default_key platform_type now w
        → ReadsLicensed tools default_key platform_type now w
    unfolding default_status generate_status
    reads (create_license status) h = tt
    reads (update_status status) h = tt
    reads (write_secret content) (status, inl default, made) = inl (
        ap (generate_status tools) (made ∙ ap (build_secret tools) default)
        ∙ generate_status-build_secret (decode tools default_key).0 _ _)
    reads (write_secret content) (status, inr (signed_license, a, granted), made) = inr (
      signed_license,
      a,
      ap (generate_status tools) (made ∙ ap (build_secret tools) granted)
          ∙ generate_status-build_secret (tools.yaml a.decoded) _ "",
    )

    -- In every secret that Reconcile writes, generateStatus reads what it reads in the default key, or
    -- in an authentic key for the platform, where Atoi reads the numbers that Itoa prints.
    pub reconcile_license-ReadsLicensed :
        (cluster : Cluster)
        → All
            (ReadsLicensed tools default_key platform_type now)
            (reconcile_license tools default_key platform_type now cluster).writes
    reconcile_license-ReadsLicensed cluster =
        All-map _ _ reads (reconcile_license-IsLicensed tools default_key platform_type now cluster)
