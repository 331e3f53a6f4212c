-- ===== src/Precreated/References.antt =====
-- The references of a spec (the append functions and precreatedConfigurationReferences of
-- internal/controller/kubernaut_controller.go).
use Prim.Native.String.{◌++◌}
use kubernaut_operator.Base.{
  String, Bool, true, false, not, Option, none, some, List, [], ◌∷◌, ◌==◌, if◌then◌else◌,
}
use kubernaut_operator.Base.Map.{lookup}
use kubernaut_operator.Api.Llm.{Oauth2Spec, ProfileSpec, enabled_by_default}
use kubernaut_operator.Api.Telemetry.{NotificationCredential}
use kubernaut_operator.Kubernaut.{
  Spec, ValkeyTlsSpec, is_gateway_enabled, is_api_frontend_enabled, is_console_enabled,
  is_fleet_enabled, is_metadata_cache_enabled,
}
use kubernaut_operator.Validation.Checks.{issue}
use kubernaut_operator.Validation.Profiles.{effective_llm_profile_ref}
use kubernaut_operator.Validation.Fleet.{effective_secret_ref}
use kubernaut_operator.Precreated.Collector.{
  Collector, add_json, add_no_newline, add_pem, add_reference, append, config_map_ref, secret_ref,
}

-- A step of the collection, and one that is made if a test holds.
abbrev pub Step : Type 0
Step = Collector → Collector

abbrev pub skip : Step
skip c = c

infixl 5 ◌then_do◌
unfoldable pub ◌then_do◌ : Step → Step → Step
◌then_do◌ f g c = g (f c)

unfoldable pub if_so : Bool → Step → Step
if_so true step = step
if_so false step = skip

abbrev pub if_given : {A : Type 0} → Option A → (A → Step) → Step
if_given none step = skip
if_given (some a) step = step a

module _ (spec : Spec) where
  -- appendPrecreatedConfigMapReferences
  unfoldable pub config_map_references : Step
  config_map_references =
      if_so (not (spec.runtime_config_map == "")) (
        add_reference config_map_ref "spec.kubernautAgent.runtimeConfigMapName"
          spec.runtime_config_map ("llm-runtime.yaml" ∷ []))
      then_do if_given spec.routing_config_map (λ name.
        add_reference config_map_ref "spec.notification.routing.configMapName" name
          ("routing.yaml" ∷ []))

  -- The loop of appendPrecreatedFeatureSecretReferences; the index in the path is left out.
  unfoldable pub credential_references : List NotificationCredential → Step
  credential_references [] = skip
  credential_references (credential ∷ credentials) =
      add_reference secret_ref "spec.notification.credentials.secretRef" credential.secret_ref.name
        (credential.secret_ref.key ∷ [])
      then_do credential_references credentials

  -- appendPrecreatedConsoleSecret
  unfoldable pub console_reference : Step
  console_reference = if_so (is_console_enabled spec) (
      add_reference secret_ref "spec.console.auth.secretName" spec.console_secret
        ("client-id" ∷ "client-secret" ∷ "cookie-secret" ∷ [])
      then_do add_no_newline "spec.console.auth.secretName" spec.console_secret
          ("client-id" ∷ "client-secret" ∷ []))

  abbrev pub enabled_valkey_references : ValkeyTlsSpec → Step
  enabled_valkey_references tls =
      if_so (not (tls.ca_secret_name == ""))
        (add_pem "spec.valkey.tls.caSecretName" tls.ca_secret_name "ca.crt")
      then_do if_so (not (tls.client_cert_secret_name == "")) (
          add_reference secret_ref "spec.valkey.tls.clientCertSecretName"
            tls.client_cert_secret_name ("tls.crt" ∷ "tls.key" ∷ []))

  -- appendPrecreatedValkeyTLSSecrets
  unfoldable pub valkey_references : Step
  valkey_references =
      if_given spec.valkey_tls (λ tls. if_so tls.enabled (enabled_valkey_references tls))

  abbrev pub oauth2_reference : String → Oauth2Spec → Step
  oauth2_reference path oauth2 c =
      if oauth2.credentials_secret_ref == ""
      then record c {
        errs =
            append c.errs
              (issue (path ++ ".oauth2.credentialsSecretRef") "must be set when OAuth2 is enabled");
      }
      else add_reference secret_ref (path ++ ".oauth2.credentialsSecretRef")
          oauth2.credentials_secret_ref ("client-id" ∷ "client-secret" ∷ []) c

  -- appendPrecreatedLLMProfileReference of a profile that was resolved
  unfoldable pub profile_material : String → ProfileSpec → Step
  profile_material path profile =
      (if profile.provider == "vertex_ai"
        then add_json (path ++ ".credentialsSecretName") profile.credentials_secret_name
            "credentials.json"
        else add_reference secret_ref (path ++ ".credentialsSecretName")
            profile.credentials_secret_name ("api_key" ∷ []))
      then_do if_so profile.oauth2.enabled (oauth2_reference path profile.oauth2)
      then_do if_so (not (profile.tls_client_secret_ref == "")) (
          add_reference secret_ref (path ++ ".tlsClientSecretRef") profile.tls_client_secret_ref
            ("tls.crt" ∷ "tls.key" ∷ []))
      then_do if_given profile.tls_ca_secret_ref (λ ref.
        add_pem (path ++ ".tlsCaSecretRef") ref.name (if ref.key == "" then "ca.crt" else ref.key))

  -- appendPrecreatedLLMProfileReference
  unfoldable pub profile_references : String → Step
  profile_references ref =
      if ref == ""
      then skip
      else if_given (lookup ref spec.llm_profiles)
          (profile_material ("spec.llmProfiles[\"" ++ ref ++ "\"]"))

  abbrev pub effective : String → String
  effective ref = effective_llm_profile_ref spec.llm_profiles ref

  -- appendPrecreatedLLMReferences
  unfoldable pub llm_references : Step
  llm_references =
      profile_references (effective spec.kubernaut_agent.investigation_profile_ref)
      then_do profile_references (effective spec.kubernaut_agent.workflow_discovery_profile_ref)
      then_do if_so spec.kubernaut_agent.alignment_check.enabled
          (profile_references (effective spec.kubernaut_agent.alignment_check.llm_profile_ref))
      then_do if_so (is_api_frontend_enabled spec) (
          profile_references (effective spec.api_frontend.llm_profile_ref)
          then_do if_given spec.api_frontend.severity_triage
              (λ ref. if_so (enabled_by_default spec.triage_llm_enabled) (profile_references ref)))

  -- addCredential
  abbrev pub fleet_credential : String → Option String → Step
  fleet_credential path override =
      add_reference secret_ref path
        (effective_secret_ref override spec.fleet.oauth2.credentials_secret_ref)
        ("client-id" ∷ "client-secret" ∷ [])

  -- appendPrecreatedFleetReferences
  unfoldable pub fleet_references : Step
  fleet_references = if_so (is_fleet_enabled spec) (
      if_so (is_gateway_enabled spec) (
        fleet_credential "spec.gateway.fleet.oauth2CredentialsSecretRef"
          spec.fleet_overrides.gateway)
      then_do fleet_credential "spec.remediationOrchestrator.fleet.oauth2CredentialsSecretRef"
          spec.fleet_overrides.remediation_orchestrator
      then_do fleet_credential "spec.signalProcessing.fleet.oauth2CredentialsSecretRef"
          spec.fleet_overrides.signal_processing
      then_do if_so (is_api_frontend_enabled spec) (
          fleet_credential "spec.apiFrontend.fleet.oauth2CredentialsSecretRef"
            spec.fleet_overrides.api_frontend)
      then_do fleet_credential "spec.effectivenessMonitor.fleet.oauth2CredentialsSecretRef"
          spec.fleet_overrides.effectiveness_monitor
      then_do fleet_credential "spec.kubernautAgent.fleet.oauth2CredentialsSecretRef"
          spec.fleet_overrides.kubernaut_agent
      then_do if_so (is_metadata_cache_enabled spec) (
          fleet_credential "spec.fleetMetadataCache.fleet.oauth2CredentialsSecretRef"
            spec.fleet_overrides.metadata_cache)
      then_do add_reference secret_ref "spec.workflowExecution.fleet.oauth2CredentialsSecretRef"
          spec.fleet_overrides.workflow_execution ("client-id" ∷ "client-secret" ∷ []))

  abbrev pub or_default_name : String → String → String
  or_default_name name default_name = if name == "" then default_name else name

  -- precreatedConfigurationReferences, with appendPrecreatedOptionalReferences and the names
  -- AIAnalysisPolicyName and SignalProcessingPolicyName
  unfoldable pub precreated_references : Collector
  precreated_references =
      (add_reference config_map_ref "spec.aiAnalysis.policy.configMapName"
            (or_default_name spec.ai_analysis_policy "aianalysis-policy") ("approval.rego" ∷ [])
          then_do add_reference config_map_ref "spec.signalProcessing.policy.configMapName"
              (or_default_name spec.signal_processing_policy "signalprocessing-policy")
              ("policy.rego" ∷ [])
          then_do config_map_references
          then_do credential_references spec.notification_credentials
          then_do console_reference
          then_do valkey_references
          then_do llm_references
          then_do fleet_references)
        (record { references = []; errs = []; seen = [] })
