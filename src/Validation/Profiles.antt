-- ===== src/Validation/Profiles.antt =====
-- The LLM profiles and the references to them (validateLLMProfiles and what it calls, in
-- internal/resources/validation.go, with the helpers of common.go and llm_tls.go). The code walks
-- the map of profiles in no fixed order; the model walks the entries as they are listed.
pub mod Rules
pub mod Material
pub mod Content
pub mod References
use kubernaut_operator.Base.{
  at_least, String, Bool, true, false, not, ◌&&◌, ◌||◌, Option, none, some, List, [], ◌∷◌, ◌==◌,
  if◌then◌else◌, is_some, is_empty, contains, ◌++◌,
}
use kubernaut_operator.Base.Map.{Map, lookup}
use kubernaut_operator.Api.Telemetry.{SecretKeyRef}
use kubernaut_operator.Api.Llm.{Oauth2Spec, ReasoningSpec, ProfileSpec}
use kubernaut_operator.Kube.Op.{Error}
use kubernaut_operator.Kubernaut.{Spec, is_api_frontend_enabled}
use kubernaut_operator.Validation.Checks.{
  at, issue, report, only, unless, to_list, first, fails, when_given, for_each, ◌+++◌,
}
use kubernaut_operator.Validation.Seen.{loop, add_new}
use kubernaut_operator.Validation.Go.{Go, Float, infinite, not_a_number}
use kubernaut_operator.Validation.Urls.{validate_fleet_https_url}

-- LLMProviderOpenAI, LLMProviderAnthropic, LLMProviderVertexAI, tlsCACertificateKey
abbrev pub open_ai : String
open_ai = "openai"

abbrev pub anthropic : String
anthropic = "anthropic"

abbrev pub vertex_ai : String
vertex_ai = "vertex_ai"

abbrev pub tls_ca_certificate_key : String
tls_ca_certificate_key = "ca.crt"

-- math.IsNaN(value) || math.IsInf(value, 0)
abbrev pub is_not_finite : Float → Bool
is_not_finite infinite = true
is_not_finite not_a_number = true
is_not_finite _ = false

-- A key that falls back to tlsCACertificateKey.
abbrev pub key_or_default : String → String
key_or_default key = if key == "" then tls_ca_certificate_key else key

-- llmTLSCAKey
abbrev pub llm_tls_ca_key : Option SecretKeyRef → String
llm_tls_ca_key none = tls_ca_certificate_key
llm_tls_ca_key (some ref) = key_or_default ref.key

-- `certSet`
abbrev pub uses_client : ProfileSpec → Bool
uses_client llm = not (llm.tls_cert_file == "") || not (llm.tls_key_file == "")

-- The calls of addPath that validateLLMProfileTLSMaterialNames makes, field and value.
abbrev pub ca_material : Option SecretKeyRef → String → List (String × String)
ca_material none ca_file = []
ca_material (some ref) ca_file = (".tlsCaFile", ca_file) ∷ []

abbrev pub client_material : Bool → ProfileSpec → List (String × String)
client_material true llm =
    (".tlsCertFile", llm.tls_cert_file) ∷ (".tlsKeyFile", llm.tls_key_file) ∷ []
client_material false llm = []

abbrev pub material : ProfileSpec → List (String × String)
material llm =
    ca_material llm.tls_ca_secret_ref llm.tls_ca_file
    ++ client_material (not (llm.tls_client_secret_ref == "")) llm

-- validateLLMReasoning
abbrev pub is_anthropic_family : String → Bool
is_anthropic_family provider = provider == anthropic || provider == vertex_ai

unfoldable pub validate_llm_reasoning : String → Option ReasoningSpec → String → List Error
validate_llm_reasoning base reasoning provider = when_given reasoning λ r.
    report (r.enabled && r.effort == "none" && is_anthropic_family provider)
      (issue (at base ".reasoning") "effort none is not supported while reasoning is enabled")

module _ (go : Go) where
  -- validateLLMProfileTuning
  unfoldable pub validate_llm_profile_tuning : String → ProfileSpec → List Error
  validate_llm_profile_tuning base llm =
      when_given llm.max_retries
        (λ z. report (not (at_least 0 z)) (issue (at base ".maxRetries") "must be non-negative"))
      +++ when_given llm.timeout_seconds
          (λ z. report (not (at_least 1 z)) (issue (at base ".timeoutSeconds") "must be positive"))
      +++ only (not (llm.temperature == "")) (
          report (fails (go.parse_float llm.temperature) is_not_finite)
            (issue (at base ".temperature") "must be a finite number"))

  -- `filepath.Base(key) != key || strings.ContainsAny(key, "\/")`
  abbrev pub has_separator : String → Bool
  has_separator key = not (go.base key == key) || go.contains_any key "\\/"

  -- validateLLMProfileCA
  unfoldable pub validate_llm_profile_ca : String → ProfileSpec → List Error
  validate_llm_profile_ca base llm =
      report (not (llm.tls_ca_file == "") && not (go.is_abs llm.tls_ca_file))
        (issue (at base ".tlsCaFile") "must be an absolute path")
      +++ when_given llm.tls_ca_secret_ref (λ ref.
        report (llm.tls_ca_file == "")
          (issue (at base ".tlsCaFile") "is required when tlsCaSecretRef is configured")
        +++ to_list (
            first (ref.name == "") (issue (at base ".tlsCaSecretRef.name") "must not be empty") (
              first (not (go.is_dns1123_subdomain ref.name))
                (issue (at base ".tlsCaSecretRef.name") "must be a valid Kubernetes object name")
                none))
        +++ report (has_separator (llm_tls_ca_key llm.tls_ca_secret_ref)) (
            issue (at base ".tlsCaSecretRef.key")
              "must be a Secret key name without path separators"))

  -- validateLLMProfileTLSPathCollisions
  unfoldable pub validate_path_collisions : String → ProfileSpec → List Error
  validate_path_collisions base llm = when_given llm.tls_ca_secret_ref λ ref.
      report (go.clean llm.tls_ca_file == go.clean llm.tls_cert_file)
        (issue (at base ".tlsCaFile") "and tlsCertFile must be different paths")
      +++ report (go.clean llm.tls_ca_file == go.clean llm.tls_key_file)
          (issue (at base ".tlsCaFile") "and tlsKeyFile must be different paths")

  -- addPath, on the names in `paths`
  unfoldable pub add_path : String → List String → String × String → List Error × List String
  add_path base paths (field, value) =
      let name = go.base value in
      if value == ""
      then ([], paths)
      else add_new (name == "." || name == ".." || name == "/")
          (issue (at base field) "must name a file below the deterministic TLS mount")
          (issue (at base field) "must use different filenames for projected TLS material") paths
          name

  -- validateLLMProfileTLSMaterialNames
  unfoldable pub validate_material_names : String → ProfileSpec → List Error
  validate_material_names base llm = loop (add_path base) [] (material llm)

  -- validateLLMProfileTLS
  unfoldable pub validate_llm_profile_tls : String → ProfileSpec → List Error
  validate_llm_profile_tls base llm =
      validate_llm_profile_ca base llm
      +++ report (uses_client llm && (llm.tls_cert_file == "" || llm.tls_key_file == ""))
          (issue (at base ".tlsCertFile") "and tlsKeyFile must both be set or both empty for mTLS")
      +++ report (not (uses_client llm) && not (llm.tls_client_secret_ref == ""))
          (issue (at base ".tlsClientSecretRef") "set but tlsCertFile/tlsKeyFile are empty")
      +++ validate_material_names base llm
      +++ unless (not (uses_client llm)) (
          report (llm.tls_client_secret_ref == "") (
            issue (at base ".tlsClientSecretRef")
              "required when mTLS cert/key paths are configured")
          +++ report (not (go.is_abs llm.tls_cert_file) || not (go.is_abs llm.tls_key_file))
              (issue (at base ".tlsCertFile") "and tlsKeyFile must be absolute paths for mTLS")
          +++ report (not (go.dir llm.tls_cert_file == go.dir llm.tls_key_file)) (
              issue (at base ".tlsCertFile")
                "and tlsKeyFile must share one parent directory for mTLS")
          +++ validate_path_collisions base llm)

  -- validateLLMProfileOAuth2
  unfoldable pub validate_llm_profile_oauth2 : String → Oauth2Spec → List Error
  validate_llm_profile_oauth2 base oauth2 = unless (not oauth2.enabled) (
      to_list (
        first (oauth2.token_url == "")
          (issue (at base ".oauth2.tokenURL") "required when OAuth2 is enabled")
          (validate_fleet_https_url go (at base ".oauth2.tokenURL") oauth2.token_url))
      +++ report (oauth2.credentials_secret_ref == "")
          (issue (at base ".oauth2.credentialsSecretRef") "required when OAuth2 is enabled"))

  -- validateLLMProfileContent
  unfoldable pub validate_llm_profile_content : String → ProfileSpec → List Error
  validate_llm_profile_content base llm =
      report (llm.provider == "") (issue (at base ".provider") "required")
      +++ report (llm.model == "") (issue (at base ".model") "required")
      +++ report (llm.credentials_secret_name == "")
          (issue (at base ".credentialsSecretName") "required")
      +++ validate_llm_profile_tuning base llm
      +++ report (llm.provider == open_ai && llm.endpoint == "")
          (issue (at base ".endpoint") "required when the provider is openai")
      +++ validate_llm_profile_tls base llm
      +++ validate_llm_profile_oauth2 base llm.oauth2
      +++ validate_llm_reasoning base llm.reasoning llm.provider

-- lookupProfileRef
unfoldable pub lookup_profile_ref : Map ProfileSpec → String → String → Bool → Option Error
lookup_profile_ref profiles ref field_path allow_empty =
    if ref == "" && allow_empty
    then none
    else first (not (is_some (lookup ref profiles)))
        (issue field_path "references undefined profile") none

-- validateRequiredEffectiveProfile
unfoldable pub validate_required_effective_profile : Map ProfileSpec → String → String → List Error
validate_required_effective_profile profiles ref field_path =
    if not (ref == "")
    then to_list (lookup_profile_ref profiles ref field_path false)
    else if is_empty profiles
    then issue field_path "required, and spec.llmProfiles defines no profiles" ∷ []
    else issue field_path "required, and the profile is ambiguous" ∷ []

abbrev pub sole_name : Map ProfileSpec → String
sole_name ((name, profile) ∷ []) = name
sole_name _ = ""

-- effectiveLLMProfileRef, which EffectiveInvestigationLLMProfileRef,
-- EffectiveWorkflowDiscoveryLLMProfileRef, EffectiveAlignmentCheckLLMProfileRef and AFLLMProfileRef
-- call on the reference of their consumer
unfoldable pub effective_llm_profile_ref : Map ProfileSpec → String → String
effective_llm_profile_ref profiles explicit =
    if not (explicit == "") then explicit else sole_name profiles

module _ (spec : Spec) where
  abbrev pub validate_consumer : String → String → List Error
  validate_consumer explicit field_path =
      validate_required_effective_profile spec.llm_profiles
        (effective_llm_profile_ref spec.llm_profiles explicit) field_path

  -- validateAFLLMProfileRefs
  unfoldable pub validate_af_llm_profile_refs : List Error
  validate_af_llm_profile_refs =
      validate_consumer spec.api_frontend.llm_profile_ref "spec.apiFrontend.llmProfileRef"
      +++ when_given spec.api_frontend.severity_triage (λ ref. to_list (
          lookup_profile_ref spec.llm_profiles ref "spec.apiFrontend.severityTriage.llmProfileRef"
            true))

  -- validateLLMProfileRefs
  unfoldable pub validate_llm_profile_refs : List Error
  validate_llm_profile_refs =
      validate_consumer spec.kubernaut_agent.investigation_profile_ref
        "spec.kubernautAgent.investigation.llmProfileRef"
      +++ validate_consumer spec.kubernaut_agent.workflow_discovery_profile_ref
          "spec.kubernautAgent.workflowDiscovery.llmProfileRef"
      +++ only spec.kubernaut_agent.alignment_check.enabled (
          validate_consumer spec.kubernaut_agent.alignment_check.llm_profile_ref
            "spec.kubernautAgent.alignmentCheck.llmProfileRef")
      +++ only (is_api_frontend_enabled spec) validate_af_llm_profile_refs

-- validateLLMProfiles
unfoldable pub validate_llm_profiles : Go → Spec → List Error
validate_llm_profiles go spec =
    for_each (λ entry. validate_llm_profile_content go (at "spec.llmProfiles." (entry.0)) entry.1)
      spec.llm_profiles
    +++ validate_llm_profile_refs spec
