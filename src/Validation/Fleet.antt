-- ===== src/Validation/Fleet.antt =====
-- The fleet (ValidateFleet and what it calls, in internal/resources/validation.go, and
-- effectiveFleetOAuth2SecretRef of internal/resources/common.go).
pub mod Rules
pub mod Accepted
use kubernaut_operator.Base.{
  ℤ, ℕ, suc, at_least, nat_eqb, length, String, Bool, true, false, not, ◌&&◌, ◌||◌, Option, none,
  some, List, [], ◌∷◌, ◌==◌, if◌then◌else◌, is_some,
}
use kubernaut_operator.Api.Fleet.{
  TrustSpec, AcmSpec, ScopeCheckSpec, GatewaySpec, FleetOauth2Spec, McpClientSpec, FleetOverrides,
}
use kubernaut_operator.Api.Telemetry.{SecretKeyRef}
use kubernaut_operator.Kube.Op.{Error, message}
use kubernaut_operator.Kubernaut.{Spec, is_fleet_enabled, is_metadata_cache_enabled}
use kubernaut_operator.Validation.Checks.{
  at, issue, report, only, unless, to_list, first, fails, when_given, ◌+++◌,
}
use kubernaut_operator.Validation.Go.{Go}
use kubernaut_operator.Validation.Urls.{validate_fleet_https_url}

-- fleetBackendACM, ComponentFleetMetadataCache
abbrev pub fleet_backend_acm : String
fleet_backend_acm = "acm"

abbrev pub fleet_metadata_cache : String
fleet_metadata_cache = "fleetmetadatacache"

-- validFleetBackends, validMCPGatewayTypes
abbrev pub is_fleet_backend : String → Bool
is_fleet_backend backend = backend == fleet_metadata_cache || backend == fleet_backend_acm

abbrev pub is_mcp_gateway_type : String → Bool
is_mcp_gateway_type type = type == "eaigw" || type == "kuadrant"

-- effectiveFleetOAuth2SecretRef, with withDefault
unfoldable pub effective_secret_ref : Option String → String → String
effective_secret_ref none shared = shared
effective_secret_ref (some own) shared = if own == "" then shared else own

-- FleetTrustSource
abbrev pub names_secret : Option SecretKeyRef → Bool
names_secret none = false
names_secret (some ref) = not (ref.name == "")

abbrev pub is_missing : Option String → Bool
is_missing none = true
is_missing (some name) = name == ""

-- The overrides of the six components that validateFleetOAuth2 walks.
abbrev pub component_overrides : FleetOverrides → List (Option String)
component_overrides overrides =
    overrides.gateway ∷ overrides.remediation_orchestrator ∷ overrides.signal_processing
    ∷ overrides.api_frontend ∷ overrides.effectiveness_monitor ∷ overrides.kubernaut_agent ∷ []

-- The number of components in `missing`.
unfoldable pub count_missing : String → List (Option String) → ℕ
count_missing shared [] = 0
count_missing shared (own ∷ overrides) =
    let rest = count_missing shared overrides in
    if effective_secret_ref own shared == "" then suc rest else rest

abbrev pub missing_errors : ℕ → List Error
missing_errors missing =
    if nat_eqb missing 0
    then []
    else if nat_eqb missing 6
    then issue "spec.fleet.oauth2.credentialsSecretRef" "must be set" ∷ []
    else issue "spec.fleet.oauth2.credentialsSecretRef"
        "must be set, or that of each component that has none"
      ∷ []

module _ (go : Go) where
  abbrev pub file_trust : String → TrustSpec → List Error
  file_trust path trust =
      to_list (
        first (trust.ca_file == "") (issue (at path ".caFile") "must be set when source is file") (
          first (not (go.is_abs trust.ca_file))
            (issue (at path ".caFile") "must be an absolute path") none))
      +++ report (is_some trust.ca_cert_secret_ref)
          (issue path "source file must not set caCertSecretRef")

  abbrev pub secret_trust : String → TrustSpec → List Error
  secret_trust path trust =
      report (not (names_secret trust.ca_cert_secret_ref))
        (issue (at path ".caCertSecretRef.name") "must be set when source is secret")
      +++ report (not (trust.ca_file == "")) (issue path "source secret must not set caFile")

  abbrev pub given_trust : String → TrustSpec → List Error
  given_trust path trust =
      if trust.source == "" || trust.source == "interService" || trust.source == "system"
      then report (not (trust.ca_file == "") || is_some trust.ca_cert_secret_ref)
          (issue path "source must not set caFile or caCertSecretRef")
      else if trust.source == "file"
      then file_trust path trust
      else if trust.source == "secret"
      then secret_trust path trust
      else issue (at path ".source") "invalid value" ∷ []

  -- validateFleetTrust
  unfoldable pub validate_fleet_trust : String → Option TrustSpec → List Error
  validate_fleet_trust path trust = when_given trust (given_trust path)

  abbrev pub required_url : String → String → List Error
  required_url path url =
      to_list (first (url == "") (issue path "must be set") (validate_fleet_https_url go path url))

  abbrev pub acm_scope : Option AcmSpec → List Error
  acm_scope none = issue "spec.fleet.scopeCheck.acm" "must be set when backend is acm" ∷ []
  acm_scope (some acm) =
      required_url "spec.fleet.scopeCheck.acm.endpoint" acm.endpoint
      +++ report (is_missing acm.token_secret_ref)
          (issue "spec.fleet.scopeCheck.acm.tokenSecretRef" "must be set when backend is acm")
      +++ validate_fleet_trust "spec.fleet.scopeCheck.acm.tls" acm.tls

  -- validateFleetScopeCheck
  unfoldable pub validate_fleet_scope_check : ScopeCheckSpec → List Error
  validate_fleet_scope_check scope =
      if scope.backend == fleet_backend_acm
      then acm_scope scope.acm
      else report (is_some scope.acm)
          (issue "spec.fleet.scopeCheck.acm" "must be omitted when backend is fleetmetadatacache")

  -- validateFleetMCPGateway
  unfoldable pub validate_fleet_mcp_gateway : GatewaySpec → List Error
  validate_fleet_mcp_gateway gateway =
      required_url "spec.fleet.mcpGateway.endpoint" gateway.endpoint
      +++ to_list (
          first (gateway.type == "") (issue "spec.fleet.mcpGateway.type" "must be set") (
            first (not (is_mcp_gateway_type gateway.type))
              (issue "spec.fleet.mcpGateway.type" "invalid value") none))
      +++ report (gateway.namespace == "") (issue "spec.fleet.mcpGateway.namespace" "must be set")

  -- `validate` of validateFleetMCPClient
  abbrev pub validate_client_duration : String → String → List Error
  validate_client_duration path value = unless (value == "") (
      report (fails (go.parse_duration value) (λ d. not (at_least 1 d)))
        (issue path "must be a positive Go duration"))

  -- validateFleetMCPClient
  unfoldable pub validate_fleet_mcp_client : Option McpClientSpec → List Error
  validate_fleet_mcp_client client = when_given client λ c.
      when_given c.retry (λ retry.
        validate_client_duration "spec.fleet.mcpClient.retry.initialInterval" retry.initial_interval
        +++ validate_client_duration "spec.fleet.mcpClient.retry.maxInterval" retry.max_interval
        +++ validate_client_duration "spec.fleet.mcpClient.retry.maxElapsedTime"
            retry.max_elapsed_time)
      +++ when_given c.timeouts (λ timeouts.
        validate_client_duration "spec.fleet.mcpClient.timeouts.tokenRefresh" timeouts.token_refresh
        +++ validate_client_duration "spec.fleet.mcpClient.timeouts.connect" timeouts.connect
        +++ validate_client_duration "spec.fleet.mcpClient.timeouts.discoverProbe"
            timeouts.discover_probe)

  -- validateFleetOAuth2
  unfoldable pub validate_fleet_oauth2 : Spec → List Error
  validate_fleet_oauth2 spec =
      required_url "spec.fleet.oauth2.tokenURL" spec.fleet.oauth2.token_url
      +++ missing_errors (
          count_missing spec.fleet.oauth2.credentials_secret_ref
            (component_overrides spec.fleet_overrides))
      +++ report (spec.fleet_overrides.workflow_execution == "") (
          issue "spec.workflowExecution.fleet.oauth2CredentialsSecretRef"
            "must be independently set when fleet.enabled is true")

  -- validateFleetConfig
  unfoldable pub validate_fleet_config : Spec → List Error
  validate_fleet_config spec = unless (not (is_fleet_enabled spec)) (
      to_list (
        first (spec.fleet.scope_check.backend == "")
          (issue "spec.fleet.scopeCheck.backend" "must not be empty")
          (first (not (is_fleet_backend spec.fleet.scope_check.backend))
            (issue "spec.fleet.scopeCheck.backend" "invalid backend") none))
      +++ validate_fleet_scope_check spec.fleet.scope_check
      +++ validate_fleet_mcp_gateway spec.fleet.mcp_gateway
      +++ validate_fleet_trust "spec.fleet.mcpGateway.tls" spec.fleet.mcp_gateway.tls
      +++ validate_fleet_oauth2 spec
      +++ validate_fleet_trust "spec.fleet.oauth2.tls" spec.fleet.oauth2.tls
      +++ validate_fleet_mcp_client spec.fleet.mcp_client)

-- validateFleetMetadataCache
unfoldable pub validate_fleet_metadata_cache : Spec → List Error
validate_fleet_metadata_cache spec = unless (not (is_metadata_cache_enabled spec)) (
    report
      (effective_secret_ref spec.fleet_overrides.metadata_cache
          spec.fleet.oauth2.credentials_secret_ref
        == "")
      (issue "spec.fleetMetadataCache.fleet.oauth2CredentialsSecretRef" "must be set"))

-- ValidateFleet
unfoldable pub validate_fleet : Go → Spec → List Error
validate_fleet go spec = validate_fleet_config go spec +++ validate_fleet_metadata_cache spec
