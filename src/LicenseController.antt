-- ===== src/LicenseController.antt =====
-- ee/controllers/license_controller.go: Reconcile as the writes that the cluster accepts. The default
-- key is an argument: its text matters only through the tools that read it, and it decodes.
pub mod Limits
pub mod Secret
mod Samples
use primehub_controller.Prelude.{
  String, Bool, true, false, Option, none, some, List, [], ◌∷◌, ◌++◌, Result, ok, err, Error, ℤ,
  pos, negsuc, if◌then◌else◌, lookup, not, str_eq, message,
}
use primehub_controller.GoText.{is_empty}
use primehub_controller.JobStatus.{is_not_found}
use primehub_controller.License.{
  Tools, LicenseState, Content, License, text_of, decode, new_license,
}

-- type LicenseStatus; the empty text in `expired` is `none`.
pub record LicenseStatus : Type 0 where
  pub expired : Option LicenseState
  pub reason : String
  pub licensed_to : String
  pub started_at : String
  pub expired_at : String
  pub max_user : ℤ
  pub max_group : ℤ
  pub max_node : ℤ
  pub max_model_deploy : ℤ
  pub platform_type : String

pub data Write : Type 0 where
  create_license : LicenseStatus → Write
  update_status : LicenseStatus → Write
  write_secret : Content → Write

-- The answers of the cluster: the signed license that is stored, and the errors of the other calls.
pub record Cluster : Type 0 where
  pub in_namespace : Bool
  pub get_license : Result String
  pub create_license_error : Option Error
  pub update_status_error : Option Error
  pub set_reference_error : Option Error
  pub get_secret_error : Option Error
  pub create_secret_error : Option Error
  pub update_secret_error : Option Error

pub record Outcome : Type 0 where
  pub writes : List Write
  pub error : Option Error

module _ (tools : Tools) where
  -- func getIntField
  get_int_field : Content → String → ℤ → ℤ
  get_int_field content key default_value = elim (lookup key content) [
    | none ↦ default_value
    | some value ↦ tools.atoi value
  ]

  -- func generateStatus
  unfoldable pub generate_status : Content → LicenseStatus
  unfolding get_int_field
  generate_status content = record {
    expired = none;
    reason = "";
    licensed_to = text_of tools "licensed_to" content;
    started_at = text_of tools "started_at" content;
    expired_at = text_of tools "expired_at" content;
    max_user = get_int_field content "max_user" (negsuc 0);
    max_group = get_int_field content "max_group" (negsuc 0);
    max_node = get_int_field content "max_node" (negsuc 0);
    max_model_deploy = get_int_field content "max_model_deploy" (pos 0);
    platform_type = text_of tools "platform_type" content;
  }

  -- func createDefaultLicense, the status of the license.
  unfoldable pub default_status : String → LicenseStatus
  default_status default_key = record (generate_status (decode tools default_key).0) {
    expired = some LicenseState.invalid;
    reason = "Invalid license or wrong target platform. Use the default license instead.";
  }

  abbrev state_text : Option LicenseState → String
  state_text none = ""
  state_text (some LicenseState.invalid) = "invalid"
  state_text (some LicenseState.expired) = "expired"
  state_text (some LicenseState.unexpired) = "unexpired"

  -- func buildSecret, the data: each field under the name that its tag gives.
  unfoldable pub build_secret : LicenseStatus → Content
  build_secret status =
      ("expired", state_text status.expired)
      ∷ ("reason", status.reason)
      ∷ ("licensed_to", status.licensed_to)
      ∷ ("started_at", status.started_at)
      ∷ ("expired_at", status.expired_at)
      ∷ ("max_user", tools.itoa status.max_user)
      ∷ ("max_group", tools.itoa status.max_group)
      ∷ ("max_node", tools.itoa status.max_node)
      ∷ ("max_model_deploy", tools.itoa status.max_model_deploy)
      ∷ ("platform_type", status.platform_type)
      ∷ []

  module _ (default_key platform_type : String) (now : ℤ) (cluster : Cluster) where
    status_from : License → LicenseState → LicenseStatus
    status_from lic LicenseState.invalid = default_status default_key
    status_from lic state = record (generate_status lic.decoded) { expired = some state }

    -- The status that Reconcile gives to a stored license.
    unfoldable pub status_of : String → LicenseStatus
    unfolding status_from
    status_of signed_license =
        let lic = new_license tools now signed_license platform_type in status_from lic lic.status

    written : List Write → Write → Option Error → Outcome
    written writes w none = record { writes = writes ++ w ∷ []; error = none }
    written writes w (some e) = record { writes = writes; error = some e }

    -- func updateSecret
    update_secret : List Write → LicenseStatus → Outcome
    unfolding written
    update_secret writes status = elim cluster.set_reference_error [
      | some e ↦ record { writes = writes; error = some e }
      | none ↦ elim cluster.get_secret_error [
        | none ↦ written writes (write_secret (build_secret status)) cluster.update_secret_error
        | some e ↦
            if is_not_found e
            then written writes (write_secret (build_secret status)) cluster.create_secret_error
            else record { writes = writes; error = some e }
      ]
    ]

    -- Reconcile from the check of the key on.
    store : List Write → String → Outcome
    unfolding update_secret
    store writes signed_license =
        let status = status_of signed_license in
        elim cluster.update_status_error [
          | some e ↦ record { writes = writes; error = some e }
          | none ↦ update_secret (writes ++ update_status status ∷ []) status
        ]

    without_license : Error → Outcome
    unfolding store
    without_license e =
        if is_not_found e
        then elim cluster.create_license_error [
          | none ↦ store (create_license (default_status default_key) ∷ []) ""
          | some x ↦ record { writes = []; error = some x }
        ]
        else record { writes = []; error = some e }

    -- func Reconcile
    unfoldable pub reconcile_license : Outcome
    unfolding store without_license
    reconcile_license =
        if not cluster.in_namespace
        then record { writes = []; error = none }
        else elim cluster.get_license [
          | ok signed_license ↦ store [] signed_license
          | err e ↦ without_license e
        ]

    -- What EnsureLicense does where the Get fails: the error of the Get is returned after the license is
    -- created, too.
    created_or : Error → Outcome
    created_or e =
        if is_not_found e
        then elim cluster.create_license_error [
          | none ↦ record {
            writes = create_license (default_status default_key) ∷ [];
            error = some e;
          }
          | some x ↦ record {
            writes = [];
            error = some (message "failed to create default License");
          }
        ]
        else record { writes = []; error = some e }

    -- func EnsureLicense
    unfoldable pub ensure_license : Outcome
    unfolding created_or
    ensure_license = elim cluster.get_license [
      | ok signed_license ↦ record { writes = []; error = none }
      | err e ↦ created_or e
    ]

-- SetupWithManager: the namespace for POD_NAMESPACE, and the platform for PLATFORM_TYPE.
unfoldable pub namespace_of : String → String
namespace_of text = if is_empty text then "hub" else text

unfoldable pub platform_type_of : String → String
platform_type_of text =
    if str_eq text "enterprise"
    then "enterprise"
    else if str_eq text "ee"
    then "enterprise"
    else if str_eq text "deploy"
    then "deploy"
    else ""
