-- ===== src/Api/Llm.antt =====
-- The LLM profiles and the agent that uses them (api/v1alpha2/kubernaut_types.go).
use kubernaut_operator.Base.{ℤ, String, Bool, true, false, Option, none, some}
use kubernaut_operator.Api.Telemetry.{SecretKeyRef, TelemetrySpec}

-- OAuth2Spec
pub record Oauth2Spec : Type 0 where
  pub enabled : Bool
  pub token_url : String
  pub credentials_secret_ref : String

-- LLMReasoningSpec
pub record ReasoningSpec : Type 0 where
  pub enabled : Bool
  pub effort : String

-- LLMProfileSpec
pub record ProfileSpec : Type 0 where
  pub provider : String
  pub model : String
  pub credentials_secret_name : String
  pub endpoint : String
  pub temperature : String
  pub max_retries : Option ℤ
  pub timeout_seconds : Option ℤ
  pub tls_ca_file : String
  pub tls_ca_secret_ref : Option SecretKeyRef
  pub tls_cert_file : String
  pub tls_key_file : String
  pub tls_client_secret_ref : String
  pub oauth2 : Oauth2Spec
  pub reasoning : Option ReasoningSpec

-- AlignmentCheckSpec
pub record AlignmentCheckSpec : Type 0 where
  pub enabled : Bool
  pub timeout : String
  pub max_step_tokens : ℤ
  pub llm_profile_ref : String

-- InteractiveSpec
pub record InteractiveSpec : Type 0 where
  pub enabled : Option Bool
  pub session_ttl : String
  pub inactivity_timeout : String

-- KubernautAgentSpec: its references to profiles, alignment check, interactive mode and telemetry
pub record AgentSpec : Type 0 where
  pub investigation_profile_ref : String
  pub workflow_discovery_profile_ref : String
  pub alignment_check : AlignmentCheckSpec
  pub interactive : Option InteractiveSpec
  pub telemetry : TelemetrySpec

-- `p == nil || *p`
abbrev pub enabled_by_default : Option Bool → Bool
enabled_by_default none = true
enabled_by_default (some b) = b

-- `p != nil && *p`
abbrev pub enabled_on_request : Option Bool → Bool
enabled_on_request none = false
enabled_on_request (some b) = b

-- InteractiveEnabled
abbrev pub interactive_enabled : InteractiveSpec → Bool
interactive_enabled interactive = enabled_by_default interactive.enabled
