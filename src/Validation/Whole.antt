-- ===== src/Validation/Whole.antt =====
-- The validation of the whole custom resource (ValidateKubernaut of
-- internal/resources/validation.go).
use kubernaut_operator.Base.{◌≡◌, ◌≢◌, ◌↔◌, refl, List, [], ◌==◌}
use kubernaut_operator.Kube.Op.{Error}
use kubernaut_operator.Kubernaut.{Spec, is_console_enabled}
use kubernaut_operator.Validation.Checks.{issue, report, to_list, ◌+++◌}
use kubernaut_operator.Validation.Accept.{◌⊗◌, report_iff, to_list_iff, differs}
use kubernaut_operator.Validation.Go.{Go}
use kubernaut_operator.Validation.DataStorage.{
  validate_data_storage, IsValidDataStorage, data_storage_iff,
}
use kubernaut_operator.Validation.Profiles.{validate_llm_profiles}
use kubernaut_operator.Validation.Profiles.Content.{IsValidProfiles, profiles_iff}
use kubernaut_operator.Validation.Observability.{
  validate_notification_credentials, validate_monitoring_endpoints, validate_monitoring_tls,
  IsValidNotification, IsValidMonitoring, IsValidMonitoringTls, notification_iff, monitoring_iff,
  monitoring_tls_iff,
}
use kubernaut_operator.Validation.Telemetry.{validate_telemetry}
use kubernaut_operator.Validation.Telemetry.Tls.{AreValidTelemetries, telemetry_iff}
use kubernaut_operator.Validation.Frontend.{validate_api_frontend}
use kubernaut_operator.Validation.Frontend.Accepted.{frontend_iff}
use kubernaut_operator.Validation.Frontend.Rules.{IsValidFrontend}
use kubernaut_operator.Validation.Console.{
  validate_console_effective_issuer, validate_console_redirect_url,
  validate_console_provider_logout_url,
}
use kubernaut_operator.Validation.Console.Logout.{issuer_iff, redirect_iff, logout_iff}
use kubernaut_operator.Validation.Console.Rules.{IsValidConsole}
use kubernaut_operator.Validation.Agent.{
  validate_alignment_check, validate_dry_run, validate_interactive, IsValidAlignmentCheck,
  IsValidDryRun, IsValidInteractive, alignment_check_iff, dry_run_iff, interactive_iff,
}

-- validatePostgreSQLSSLMode
unfoldable pub validate_ssl_mode : Go → Spec → List Error
validate_ssl_mode go spec =
    report (go.to_lower spec.postgresql_ssl_mode == "disable")
      (issue "spec.postgresql.sslMode" "disable is rejected")

-- validatePolicyPrerequisites
abbrev pub validate_policy_prerequisites : Spec → List Error
validate_policy_prerequisites spec = []

-- ValidateKubernaut
unfoldable pub validate_kubernaut : Go → Spec → List Error
validate_kubernaut go spec =
    validate_ssl_mode go spec
    +++ validate_policy_prerequisites spec
    +++ validate_llm_profiles go spec
    +++ validate_notification_credentials go spec.notification_credentials
    +++ validate_telemetry go spec
    +++ validate_monitoring_endpoints go spec.monitoring
    +++ validate_monitoring_tls go spec.monitoring
    +++ validate_api_frontend go spec.api_frontend
    +++ to_list (validate_console_effective_issuer spec)
    +++ to_list
        (validate_console_redirect_url go (is_console_enabled spec) spec.console.redirect_url)
    +++ to_list (validate_console_provider_logout_url go spec)
    +++ validate_alignment_check go spec.kubernaut_agent.alignment_check
    +++ validate_dry_run go spec.dry_run spec.dry_run_hold_period
    +++ validate_interactive go spec.kubernaut_agent.interactive
    +++ validate_data_storage go spec.data_storage

-- What a spec has to satisfy, section by section.
pub record IsValidSpec (go : Go) (spec : Spec) : Type 0 where
  pub ssl_mode : go.to_lower spec.postgresql_ssl_mode ≢ "disable"
  pub profiles : IsValidProfiles go spec
  pub notification : IsValidNotification go spec.notification_credentials
  pub telemetry : AreValidTelemetries go spec
  pub monitoring : IsValidMonitoring go spec.monitoring
  pub monitoring_tls : IsValidMonitoringTls go spec.monitoring
  pub frontend : IsValidFrontend go spec.api_frontend
  pub console : IsValidConsole go spec
  pub alignment_check : IsValidAlignmentCheck go spec.kubernaut_agent.alignment_check
  pub dry_run : IsValidDryRun go spec.dry_run spec.dry_run_hold_period
  pub interactive : IsValidInteractive go spec.kubernaut_agent.interactive
  pub data_storage : IsValidDataStorage go spec.data_storage

nothing_iff : (spec : Spec) → (validate_policy_prerequisites spec ≡ []) ↔ Unit {0}
nothing_iff spec = (λ h. tt, λ h. refl)

-- ValidateKubernaut has no complaint exactly if every section of the spec is valid and the mode of
-- the database connection is, in lower case, not "disable".
pub validate_kubernaut_iff :
    (go : Go) (spec : Spec) → (validate_kubernaut go spec ≡ []) ↔ IsValidSpec go spec
unfolding validate_kubernaut validate_ssl_mode
validate_kubernaut_iff go spec =
    let sections =
      report_iff _ (differs (go.to_lower spec.postgresql_ssl_mode) "disable")
      ⊗ nothing_iff spec
      ⊗ profiles_iff go spec
      ⊗ notification_iff go spec.notification_credentials
      ⊗ telemetry_iff go spec
      ⊗ monitoring_iff go spec.monitoring
      ⊗ monitoring_tls_iff go spec.monitoring
      ⊗ frontend_iff go spec.api_frontend
      ⊗ to_list_iff (issuer_iff go spec)
      ⊗ to_list_iff (redirect_iff go spec (is_console_enabled spec) spec.console.redirect_url)
      ⊗ to_list_iff (logout_iff go spec)
      ⊗ alignment_check_iff go spec.kubernaut_agent.alignment_check
      ⊗ dry_run_iff go spec.dry_run spec.dry_run_hold_period
      ⊗ interactive_iff go spec.kubernaut_agent.interactive
      ⊗ data_storage_iff go spec.data_storage in
    (
      λ h.
          let ((((((((((((((mode, nothing), p), n), t), m), ca), af), i), r), l), a), d), it), ds) =
            sections.0 h in
          record {
            ssl_mode = mode;
            profiles = p;
            notification = n;
            telemetry = t;
            monitoring = m;
            monitoring_tls = ca;
            frontend = af;
            console = ((i, r), l);
            alignment_check = a;
            dry_run = d;
            interactive = it;
            data_storage = ds;
          },
      λ v. sections.1 (
        (
          (
            (
              (
                (
                  (
                    (
                      (
                        (
                          ((((v.ssl_mode, tt), v.profiles), v.notification), v.telemetry),
                          v.monitoring,
                        ),
                        v.monitoring_tls,
                      ),
                      v.frontend,
                    ),
                    v.console.0.0,
                  ),
                  v.console.0.1,
                ),
                v.console.1,
              ),
              v.alignment_check,
            ),
            v.dry_run,
          ),
          v.interactive,
        ),
        v.data_storage,
      ),
    )
