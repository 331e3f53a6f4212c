-- ===== src/Kubernaut.antt =====
-- The Kubernaut custom resource, its spec and its status (api/v1alpha2/kubernaut_types.go). Of the
-- spec the model holds what the modelled operations read.
use kubernaut_operator.Base.{ℕ, String, Bool, ◌&&◌, Option, List, [], ◌∷◌, ◌==◌}
use kubernaut_operator.Base.Map.{Map}
use kubernaut_operator.Api.DataStorage.{DataStorageSpec}
use kubernaut_operator.Api.Llm.{ProfileSpec, AgentSpec, enabled_by_default, enabled_on_request}
use kubernaut_operator.Api.Frontend.{FrontendSpec, FrontendAuthSpec, JwtProviderSpec, ConsoleSpec}
use kubernaut_operator.Api.Telemetry.{TelemetrySpec, MonitoringSpec, NotificationCredential}
use kubernaut_operator.Api.Fleet.{FleetSpec, FleetOverrides}
use kubernaut_operator.Api.Network.{NetworkPoliciesSpec}
use kubernaut_operator.Kube.Op.{Error}

-- KubernautPhase; `unset` is the empty text of a new object.
pub data Phase : Type 0 where
  unset validating migrating deploying running degraded error : Phase

pub Phase-discrete : Discrete Phase
Phase-discrete = hlevel

-- The text of a condition: fixed, or with the text of an error behind it.
pub data Message : Type 0 where
  text : String → Message
  failed : String → Error → Message

-- metav1.Condition without its transition time; `status` is "True", "False" or "Unknown".
pub record Condition : Type 0 where
  pub type : String
  pub status : String
  pub reason : String
  pub message : Message
  pub observed_generation : ℕ

-- ServiceStatus
pub record ServiceStatus : Type 0 where
  pub name : String
  pub ready : Bool
  pub ready_replicas : ℕ
  pub desired_replicas : ℕ

-- KubernautStatus; `last_migration_time` is left out with the clock.
pub record Status : Type 0 where
  pub phase : Phase
  pub conditions : List Condition
  pub services : List ServiceStatus
  pub last_migration_hash : String
  pub bound_tool_role_bindings : List String

-- ValkeyTLSSpec
pub record ValkeyTlsSpec : Type 0 where
  pub enabled : Bool
  pub ca_secret_name : String
  pub client_cert_secret_name : String

-- KubernautSpec; of a block with one modelled field the field stands for the block.
pub record Spec : Type 0 where
  pub postgresql_host : String
  pub postgresql_port : ℕ  -- 0 where it is left out
  pub postgresql_ssl_mode : String
  pub postgresql_secret : String
  pub valkey_host : String
  pub valkey_secret : String
  pub data_storage : DataStorageSpec
  pub llm_profiles : Map ProfileSpec
  pub kubernaut_agent : AgentSpec
  pub api_frontend : FrontendSpec
  pub console : ConsoleSpec
  pub gateway_enabled : Option Bool
  pub gateway_telemetry : TelemetrySpec
  pub monitoring : MonitoringSpec
  pub notification_credentials : List NotificationCredential
  pub dry_run : Bool
  pub dry_run_hold_period : String
  pub fleet : FleetSpec
  pub fleet_overrides : FleetOverrides
  pub network_policies : NetworkPoliciesSpec
  pub workflow_namespace : String
  pub ai_analysis_policy : String
  pub signal_processing_policy : String
  pub runtime_config_map : String
  pub routing_config_map : Option String
  pub console_secret : String
  pub valkey_tls : Option ValkeyTlsSpec
  pub triage_llm_enabled : Option Bool

-- Kubernaut
pub record Kubernaut : Type 0 where
  pub name : String
  pub namespace : String
  pub uid : String
  pub generation : ℕ
  pub resource_version : ℕ
  pub terminating : Bool
  pub finalizers : List String
  pub spec : Spec
  pub status : Status

-- SingletonName
abbrev pub singleton_name : String
singleton_name = "kubernaut"

-- FinalizerName
abbrev pub finalizer_name : String
finalizer_name = "kubernaut.ai/cleanup"

abbrev pub condition_true : String
condition_true = "True"

abbrev pub condition_false : String
condition_false = "False"

-- GatewayEnabled, APIFrontendEnabled, ConsoleEnabled, FleetEnabled, FleetMetadataCacheEnabled
abbrev pub is_gateway_enabled : Spec → Bool
is_gateway_enabled spec = enabled_by_default spec.gateway_enabled

abbrev pub is_api_frontend_enabled : Spec → Bool
is_api_frontend_enabled spec = enabled_on_request spec.api_frontend.enabled

abbrev pub is_console_enabled : Spec → Bool
is_console_enabled spec = enabled_on_request spec.console.enabled

abbrev pub is_fleet_enabled : Spec → Bool
is_fleet_enabled spec = enabled_on_request spec.fleet.enabled

abbrev pub is_metadata_cache_enabled : Spec → Bool
is_metadata_cache_enabled spec =
    is_fleet_enabled spec && spec.fleet.scope_check.backend == "fleetmetadatacache"

abbrev pub first_issuer : FrontendAuthSpec → List JwtProviderSpec → String
first_issuer auth [] = auth.issuer_url
first_issuer auth (provider ∷ providers) = provider.issuer_url

-- EffectiveIssuerURL, ConsoleIssuerURL
abbrev pub effective_issuer_url : Spec → String
effective_issuer_url spec = first_issuer spec.api_frontend.auth spec.api_frontend.auth.jwt_providers
