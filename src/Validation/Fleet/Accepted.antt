-- ===== src/Validation/Fleet/Accepted.antt =====
-- What the fleet has to satisfy (ValidateFleet of internal/resources/validation.go).
use kubernaut_operator.Base.{
  at_least_iff, String, ◌≡◌, ◌↔◌, Option, none, some, List, [], All, is_some,
}
use kubernaut_operator.Api.Fleet.{TrustSpec, AcmSpec, ScopeCheckSpec, GatewaySpec, McpClientSpec}
use kubernaut_operator.Api.Llm.{enabled_on_request}
use kubernaut_operator.Kubernaut.{Spec}
use kubernaut_operator.Validation.Checks.{Given, Parses}
use kubernaut_operator.Validation.Accept.{
  ◌⊗◌, report_iff, unless_iff, optional_iff, to_list_iff, first_iff, last_iff, fails_iff,
  branch_iff, flip_false, or_false, or_true, and_true, same, same_not, differs, is_true, is_false,
}
use kubernaut_operator.Validation.Go.{Go}
use kubernaut_operator.Validation.Urls.{fleet_url_iff}
use kubernaut_operator.Validation.Fleet.{
  fleet_backend_acm, fleet_metadata_cache, component_overrides, count_missing, missing_errors,
  validate_fleet_trust, required_url, acm_scope, validate_fleet_scope_check,
  validate_fleet_mcp_gateway, validate_client_duration, validate_fleet_mcp_client,
  validate_fleet_oauth2, validate_fleet_config, validate_fleet_metadata_cache, validate_fleet,
}
use kubernaut_operator.Validation.Fleet.Rules.{
  names_iff, token_iff, HasCredential, credential_iff, count_iff, missing_iff, IsRequiredUrl,
  IsValidTrust, IsValidAcm, IsValidScope, IsValidGateway, IsPositive, IsValidMcpClient,
  IsValidFleetOauth2, IsValidFleet,
}

module _ (go : Go) where
  url_iff : (path url : String) → (required_url go path url ≡ []) ↔ IsRequiredUrl go url
  url_iff path url = to_list_iff (first_iff _ (differs url "") (fleet_url_iff go path url))

  trust_iff :
      (path : String) (trust : Option TrustSpec)
      → (validate_fleet_trust go path trust ≡ []) ↔ Given (IsValidTrust go) trust
  unfolding validate_fleet_trust
  trust_iff path trust = optional_iff trust λ t.
      branch_iff _ _
        (or_true (or_true (same t.source "") (same t.source "interService"))
          (same t.source "system"))
        (or_false (or_false (differs t.source "") (differs t.source "interService"))
          (differs t.source "system"))
        (report_iff _ (or_false (same_not t.ca_file "") (is_false (is_some t.ca_cert_secret_ref))))
        (branch_iff _ _ (same t.source "file") (differs t.source "file")
          (to_list_iff (
              first_iff _ (differs t.ca_file "")
                (last_iff _ (flip_false (is_true (go.is_abs t.ca_file)))))
            ⊗ report_iff _ (is_false (is_some t.ca_cert_secret_ref)))
          (branch_iff _ _ (same t.source "secret") (differs t.source "secret")
            (report_iff _ (flip_false (names_iff t.ca_cert_secret_ref))
              ⊗ report_iff _ (same_not t.ca_file ""))
            (λ h. cc, λ h. absurd h)))

  acm_iff : (acm : Option AcmSpec) → (acm_scope go acm ≡ []) ↔ Parses (IsValidAcm go) acm
  acm_iff none = (λ h. cc, λ h. absurd h)
  acm_iff (some acm) =
      url_iff _ acm.endpoint ⊗ report_iff _ (token_iff acm.token_secret_ref) ⊗ trust_iff _ acm.tls

  scope_iff :
      (scope : ScopeCheckSpec) → (validate_fleet_scope_check go scope ≡ []) ↔ IsValidScope go scope
  unfolding validate_fleet_scope_check
  scope_iff scope =
      branch_iff _ _ (same scope.backend fleet_backend_acm)
        (differs scope.backend fleet_backend_acm) (acm_iff scope.acm)
        (report_iff _ (is_false (is_some scope.acm)))

  gateway_iff :
      (gateway : GatewaySpec)
      → (validate_fleet_mcp_gateway go gateway ≡ []) ↔ IsValidGateway go gateway
  unfolding validate_fleet_mcp_gateway
  gateway_iff gateway =
      url_iff _ gateway.endpoint
      ⊗ to_list_iff (
          first_iff _ (differs gateway.type "") (
            last_iff _
              (flip_false (or_true (same gateway.type "eaigw") (same gateway.type "kuadrant")))))
      ⊗ report_iff _ (differs gateway.namespace "")

  interval_iff :
      (path value : String) → (validate_client_duration go path value ≡ []) ↔ IsPositive go value
  interval_iff path value =
      unless_iff (differs value "")
        (report_iff _ (fails_iff (go.parse_duration value) λ d. at_least_iff 1 d))

  mcp_client_iff :
      (client : Option McpClientSpec)
      → (validate_fleet_mcp_client go client ≡ []) ↔ Given (IsValidMcpClient go) client
  unfolding validate_fleet_mcp_client
  mcp_client_iff client = optional_iff client λ c.
      optional_iff c.retry (λ r.
        interval_iff _ r.initial_interval
        ⊗ interval_iff _ r.max_interval
        ⊗ interval_iff _ r.max_elapsed_time)
      ⊗ optional_iff c.timeouts (λ t.
        interval_iff _ t.token_refresh ⊗ interval_iff _ t.connect ⊗ interval_iff _ t.discover_probe)

  components_iff :
      (shared : String) (overrides : List (Option String))
      → (missing_errors (count_missing shared overrides) ≡ [])
        ↔ All (HasCredential shared) overrides
  components_iff shared overrides =
      let none_missing = missing_iff (count_missing shared overrides) in
      let counted = count_iff shared overrides in
      (λ h. counted.0 (none_missing.0 h), λ h. none_missing.1 (counted.1 h))

  oauth2_iff : (spec : Spec) → (validate_fleet_oauth2 go spec ≡ []) ↔ IsValidFleetOauth2 go spec
  unfolding validate_fleet_oauth2
  oauth2_iff spec =
      url_iff _ spec.fleet.oauth2.token_url
      ⊗ components_iff spec.fleet.oauth2.credentials_secret_ref
          (component_overrides spec.fleet_overrides)
      ⊗ report_iff _ (differs spec.fleet_overrides.workflow_execution "")

  -- ValidateFleet has no complaint exactly if the fleet is off, or all of the following hold. The
  -- backend of the scope check is the metadata cache or ACM; with ACM its block is there, with an
  -- https endpoint, a token reference that is not empty and a valid trust where one is set, and
  -- without ACM there is no such block. The MCP gateway has an https endpoint, one of the two known
  -- types and a namespace, and the token URL of OAuth2 is an https one; an
  -- https URL here has a host, no user information and no blanks around it. The trust of the gateway and
  -- that of OAuth2 fit their sources where they are set: no file and no Secret for the cluster's and
  -- the system's roots, an absolute file and no Secret for a file, a named Secret and no file for a
  -- Secret, and no other source. The durations of the MCP client that are set are positive. Each of
  -- the six components that read has a credential of its own or the shared one, and the component
  -- that writes has its own; with the metadata cache as backend that cache has one too.
  pub fleet_iff : (spec : Spec) → (validate_fleet go spec ≡ []) ↔ IsValidFleet go spec
  unfolding validate_fleet validate_fleet_config validate_fleet_metadata_cache
  fleet_iff spec =
      unless_iff (flip_false (is_true (enabled_on_request spec.fleet.enabled))) (
        to_list_iff (
          first_iff _ (differs spec.fleet.scope_check.backend "") (
            last_iff _ (
              flip_false (
                or_true (same spec.fleet.scope_check.backend fleet_metadata_cache)
                  (same spec.fleet.scope_check.backend fleet_backend_acm)))))
        ⊗ scope_iff spec.fleet.scope_check
        ⊗ gateway_iff spec.fleet.mcp_gateway
        ⊗ trust_iff _ spec.fleet.mcp_gateway.tls
        ⊗ oauth2_iff spec
        ⊗ trust_iff _ spec.fleet.oauth2.tls
        ⊗ mcp_client_iff spec.fleet.mcp_client)
      ⊗ unless_iff
          (flip_false (
            and_true (is_true (enabled_on_request spec.fleet.enabled))
              (same spec.fleet.scope_check.backend fleet_metadata_cache)))
          (report_iff _ (
            credential_iff spec.fleet.oauth2.credentials_secret_ref
              spec.fleet_overrides.metadata_cache))
