-- ===== src/LicenseController/Samples.antt =====
-- A reconcile of an authentic license.
use primehub_controller.Prelude.{true, none, ok, pos, All, Bool-cases, str_eq, inl, inr, refl}
use primehub_controller.LicenseController.Secret.{
  PrintsNumbers, ReadsLicensed, reconcile_license-ReadsLicensed,
}
use primehub_controller.License.Samples.{toy}
use primehub_controller.LicenseController.{Cluster, reconcile_license}
use primehub_controller.LicenseController.Limits.{WritesLicensed, reconcile_license-IsLicensed}

abbrev answering : Cluster
answering = record {
  in_namespace = true;
  get_license = ok "text.aa";
  create_license_error = none;
  update_status_error = none;
  set_reference_error = none;
  get_secret_error = none;
  create_secret_error = none;
  update_secret_error = none;
}

reconcile_license-IsLicensed_example :
    All
      (WritesLicensed toy "text.aa" "deploy" (pos 50))
      (reconcile_license toy "text.aa" "deploy" (pos 50) answering).writes
reconcile_license-IsLicensed_example =
    reconcile_license-IsLicensed toy "text.aa" "deploy" (pos 50) answering

toy-PrintsNumbers : PrintsNumbers toy
toy-PrintsNumbers = record {
  printed = λ text. elim (Bool-cases (str_eq text "-1")) [
    | inl negative ↦ rw negative refl
    | inr other ↦ rw other refl
  ];
  unlimited = refl;
  none_at_all = refl;
}

reconcile_license-ReadsLicensed_example :
    All
      (ReadsLicensed toy "text.aa" "deploy" (pos 50))
      (reconcile_license toy "text.aa" "deploy" (pos 50) answering).writes
reconcile_license-ReadsLicensed_example =
    reconcile_license-ReadsLicensed toy toy-PrintsNumbers "text.aa" "deploy" (pos 50) answering
