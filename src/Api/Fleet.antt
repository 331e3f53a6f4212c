-- ===== src/Api/Fleet.antt =====
-- The spec of the fleet (api/v1alpha2/kubernaut_types.go). A FleetOverrideSpec holds one field, so
-- an override is an optional text.
use kubernaut_operator.Base.{String, Bool, Option}
use kubernaut_operator.Api.Telemetry.{SecretKeyRef}

-- FleetTrustSpec
pub record TrustSpec : Type 0 where
  pub source : String
  pub ca_file : String
  pub ca_cert_secret_ref : Option SecretKeyRef

-- FleetACMScopeCheckSpec; `token_secret_ref` is the name in the reference
pub record AcmSpec : Type 0 where
  pub endpoint : String
  pub token_secret_ref : Option String
  pub tls : Option TrustSpec

-- FleetScopeCheckSpec
pub record ScopeCheckSpec : Type 0 where
  pub backend : String
  pub acm : Option AcmSpec

-- FleetMCPGatewaySpec
pub record GatewaySpec : Type 0 where
  pub type : String
  pub endpoint : String
  pub namespace : String
  pub tls : Option TrustSpec

-- FleetOAuth2Spec
pub record FleetOauth2Spec : Type 0 where
  pub token_url : String
  pub credentials_secret_ref : String
  pub tls : Option TrustSpec

-- FleetMCPClientRetrySpec
pub record RetrySpec : Type 0 where
  pub initial_interval : String
  pub max_interval : String
  pub max_elapsed_time : String

-- FleetMCPClientTimeoutsSpec
pub record TimeoutsSpec : Type 0 where
  pub token_refresh : String
  pub connect : String
  pub discover_probe : String

-- FleetMCPClientSpec
pub record McpClientSpec : Type 0 where
  pub retry : Option RetrySpec
  pub timeouts : Option TimeoutsSpec

-- FleetSpec
pub record FleetSpec : Type 0 where
  pub enabled : Option Bool
  pub mcp_gateway : GatewaySpec
  pub scope_check : ScopeCheckSpec
  pub oauth2 : FleetOauth2Spec
  pub mcp_client : Option McpClientSpec

-- The override of each component that takes part in the fleet.
pub record FleetOverrides : Type 0 where
  pub gateway : Option String
  pub remediation_orchestrator : Option String
  pub signal_processing : Option String
  pub api_frontend : Option String
  pub effectiveness_monitor : Option String
  pub kubernaut_agent : Option String
  pub metadata_cache : Option String
  pub workflow_execution : String
