-- ===== src/Validation/Observability.antt =====
-- The sections of the notifications and of the monitoring (validateNotificationCredentials,
-- validateMonitoringEndpoints, validateMonitoringTLS of internal/resources/validation.go). The path
-- of a credential leaves out its index.
use kubernaut_operator.Base.{
  String, ◌≡◌, ◌↔◌, refl, true, false, not, none, some, List, [], ◌∷◌, ◌==◌, All, contains,
}
use kubernaut_operator.Api.Telemetry.{NotificationCredential, MonitoringSpec}
use kubernaut_operator.Kube.Op.{Error}
use kubernaut_operator.Validation.Checks.{
  at, issue, report, unless, to_list, first, fails, when_given, ◌+++◌, IsPresent, Given, Parses,
  ◌&◌,
}
use kubernaut_operator.Validation.Accept.{
  ◌⊗◌, report_iff, unless_iff, optional_iff, to_list_iff, first_iff, last_iff, fails_iff,
  flip_false, or_false, same_not, differs, is_true, is_false,
}
use kubernaut_operator.Validation.Seen.{loop, loop_iff, keys, Distinct, New}
use kubernaut_operator.Validation.Go.{Go}
use kubernaut_operator.Validation.Urls.{rejects_https, https_scheme}
use kubernaut_operator.Validation.Profiles.{key_or_default}

module _ (go : Go) where
  -- One round of validateNotificationCredentials.
  unfoldable pub validate_credential :
      List String → NotificationCredential → List Error × List String
  validate_credential seen credential = (
    report (not (go.is_label_value credential.name))
          (issue "spec.notification.credentials.name" "must be a valid credential file name")
        +++ report (contains seen credential.name)
            (issue "spec.notification.credentials.name" "must be unique")
        +++ report (not (go.is_dns1123_subdomain credential.secret_ref.name)) (
            issue "spec.notification.credentials.secretRef.name"
              "must be a valid Kubernetes object name")
        +++ report (not (go.is_config_map_key credential.secret_ref.key))
            (issue "spec.notification.credentials.secretRef.key" "must be a valid Secret key"),
    credential.name ∷ seen,
  )

  -- validateNotificationCredentials
  unfoldable pub validate_notification_credentials : List NotificationCredential → List Error
  validate_notification_credentials credentials = loop validate_credential [] credentials

  -- One round of validateMonitoringEndpoints.
  abbrev pub validate_endpoint : String → String → List Error
  validate_endpoint path url =
      let value = go.trim_space url in
      unless (value == "") (
        to_list (
          first (not (value == url)) (issue path "must not contain leading or trailing whitespace")
            (first (fails (go.parse_url value) rejects_https)
              (issue path "must be an https URL without user information") none)))

  -- validateMonitoringEndpoints
  unfoldable pub validate_monitoring_endpoints : MonitoringSpec → List Error
  validate_monitoring_endpoints monitoring =
      validate_endpoint "spec.monitoring.prometheus.url" monitoring.prometheus_url
      +++ validate_endpoint "spec.monitoring.alertManager.url" monitoring.alert_manager_url

  -- validateMonitoringCARef
  unfoldable pub validate_monitoring_ca_ref : String → String → String → List Error
  validate_monitoring_ca_ref base name key =
      to_list (
        first (name == "") (issue (at base ".name") "must not be empty") (
          first (not (go.is_dns1123_subdomain name))
            (issue (at base ".name") "must be a valid Kubernetes object name") none))
      +++ report (not (go.is_config_map_key (key_or_default key)))
          (issue (at base ".key") "must be a valid Secret key")

  -- validateMonitoringTLS
  unfoldable pub validate_monitoring_tls : MonitoringSpec → List Error
  validate_monitoring_tls monitoring =
      when_given monitoring.ca_cert_secret_ref
        λ ref. validate_monitoring_ca_ref "spec.monitoring.tls.caCertSecretRef" ref.name ref.key

  abbrev pub IsValidCredential : NotificationCredential → Type 0
  IsValidCredential credential =
      (go.is_label_value credential.name ≡ true)
      & (go.is_dns1123_subdomain credential.secret_ref.name ≡ true)
      & (go.is_config_map_key credential.secret_ref.key ≡ true)

  -- What the notifications have to satisfy.
  abbrev pub IsValidNotification : List NotificationCredential → Type 0
  IsValidNotification credentials =
      All IsValidCredential credentials & Distinct (keys (λ c. some c.name) credentials)

  -- An endpoint that is blank, or an https URL with no blanks around it.
  abbrev pub IsValidEndpoint : String → Type 0
  IsValidEndpoint url =
      IsPresent (go.trim_space url)
      → (go.trim_space url ≡ url)
        & Parses (λ u. (u.scheme ≡ https_scheme) & IsPresent u.host & (u.has_user ≡ false))
            (go.parse_url (go.trim_space url))

  -- What the monitoring has to satisfy.
  abbrev pub IsValidMonitoring : MonitoringSpec → Type 0
  IsValidMonitoring monitoring =
      IsValidEndpoint monitoring.prometheus_url & IsValidEndpoint monitoring.alert_manager_url

  abbrev pub IsValidMonitoringTls : MonitoringSpec → Type 0
  IsValidMonitoringTls monitoring =
      Given
        (λ ref.
          (IsPresent ref.name & (go.is_dns1123_subdomain ref.name ≡ true))
          & (go.is_config_map_key (key_or_default ref.key) ≡ true))
        monitoring.ca_cert_secret_ref

  credential_accepts :
      (seen : List String) (c : NotificationCredential)
      → ((validate_credential seen c).0 ≡ []) ↔ (IsValidCredential c & New seen (some c.name))
  unfolding validate_credential
  credential_accepts seen c =
      let all =
        report_iff _ (flip_false (is_true (go.is_label_value c.name)))
        ⊗ report_iff _ (is_false (contains seen c.name))
        ⊗ report_iff _ (flip_false (is_true (go.is_dns1123_subdomain c.secret_ref.name)))
        ⊗ report_iff _ (flip_false (is_true (go.is_config_map_key c.secret_ref.key))) in
      (
        λ h. let (((label, new), name), key) = all.0 h in (((label, name), key), new),
        λ h. let (((label, name), key), new) = h in all.1 (((label, new), name), key),
      )

  -- validateNotificationCredentials has no complaint exactly if every credential has a name that is
  -- a label value and a reference with a valid Secret name and key, and no two credentials have the
  -- same name.
  pub notification_iff :
      (credentials : List NotificationCredential)
      → (validate_notification_credentials credentials ≡ []) ↔ IsValidNotification credentials
  unfolding validate_notification_credentials validate_credential
  notification_iff credentials =
      loop_iff (λ c. some c.name) credential_accepts (λ seen c h. refl) credentials

  endpoint_iff : (path url : String) → (validate_endpoint path url ≡ []) ↔ IsValidEndpoint url
  endpoint_iff path url = unless_iff (differs (go.trim_space url) "") (
      to_list_iff (
        first_iff _ (same_not (go.trim_space url) url) (
          last_iff _ (
            fails_iff (go.parse_url (go.trim_space url)) λ u.
              or_false (or_false (same_not u.scheme https_scheme) (differs u.host ""))
                (is_false u.has_user)))))

  pub monitoring_iff :
      (monitoring : MonitoringSpec)
      → (validate_monitoring_endpoints monitoring ≡ []) ↔ IsValidMonitoring monitoring
  unfolding validate_monitoring_endpoints
  monitoring_iff monitoring =
      endpoint_iff _ monitoring.prometheus_url ⊗ endpoint_iff _ monitoring.alert_manager_url

  pub monitoring_tls_iff :
      (monitoring : MonitoringSpec)
      → (validate_monitoring_tls monitoring ≡ []) ↔ IsValidMonitoringTls monitoring
  unfolding validate_monitoring_tls validate_monitoring_ca_ref
  monitoring_tls_iff monitoring = optional_iff monitoring.ca_cert_secret_ref λ ref.
      to_list_iff (first_iff _ (differs ref.name "") (last_iff _ (flip_false (is_true _))))
      ⊗ report_iff _ (flip_false (is_true _))
