-- ===== src/Validation/Profiles/Rules.antt =====
-- What a profile has to satisfy (validateLLMProfileContent of internal/resources/validation.go).
use kubernaut_operator.Base.{IsAtLeast, String, ◌≡◌, ◌≢◌, ◌⊎◌, true, false}
use kubernaut_operator.Api.Llm.{Oauth2Spec, ReasoningSpec, ProfileSpec}
use kubernaut_operator.Validation.Checks.{IsPresent, IfSet, Given, Parses, ◌&◌}
use kubernaut_operator.Validation.Go.{Go, Float, finite}
use kubernaut_operator.Validation.Urls.{IsHttpsUrl}
use kubernaut_operator.Validation.Profiles.{open_ai, anthropic, vertex_ai, llm_tls_ca_key}
use kubernaut_operator.Validation.Profiles.Material.{IsValidMaterial}

abbrev pub IsFinite : Float → Type 0
IsFinite f = f ≡ finite

-- An enabled reasoning with effort "none" is not for a provider of the Anthropic family.
abbrev pub IsValidReasoning : String → ReasoningSpec → Type 0
IsValidReasoning provider r =
    (r.enabled ≡ true) & (r.effort ≡ "none") → (provider ≢ anthropic) & (provider ≢ vertex_ai)

module _ (go : Go) where
  abbrev pub IsValidTuning : ProfileSpec → Type 0
  IsValidTuning llm =
      Given (IsAtLeast 0) llm.max_retries
      & Given (IsAtLeast 1) llm.timeout_seconds
      & IfSet (λ text. Parses IsFinite (go.parse_float text)) llm.temperature

  -- A key without a path separator
  abbrev pub IsKeyName : String → Type 0
  IsKeyName key = (go.base key ≡ key) & (go.contains_any key "\\/" ≡ false)

  abbrev pub IsValidCa : ProfileSpec → Type 0
  IsValidCa llm =
      IfSet (λ file. go.is_abs file ≡ true) llm.tls_ca_file
      & Given
          (λ ref.
            IsPresent llm.tls_ca_file
            & (IsPresent ref.name & (go.is_dns1123_subdomain ref.name ≡ true))
            & IsKeyName (llm_tls_ca_key llm.tls_ca_secret_ref))
          llm.tls_ca_secret_ref

  -- One of the two files of the client is set.
  abbrev pub UsesClient : ProfileSpec → Type 0
  UsesClient llm = IsPresent llm.tls_cert_file ⊎ IsPresent llm.tls_key_file

  -- The file of the authority is neither of those of the client.
  abbrev pub IsApart : ProfileSpec → Type 0
  IsApart llm =
      Given
        (λ ref.
          (go.clean llm.tls_ca_file ≢ go.clean llm.tls_cert_file)
          & (go.clean llm.tls_ca_file ≢ go.clean llm.tls_key_file))
        llm.tls_ca_secret_ref

  abbrev pub IsValidTls : ProfileSpec → Type 0
  IsValidTls llm =
      IsValidCa llm
      & (UsesClient llm → IsPresent llm.tls_cert_file & IsPresent llm.tls_key_file)
      & ((llm.tls_cert_file ≡ "") & (llm.tls_key_file ≡ "") → llm.tls_client_secret_ref ≡ "")
      & IsValidMaterial go llm
      & (UsesClient llm
          → IsPresent llm.tls_client_secret_ref
            & ((go.is_abs llm.tls_cert_file ≡ true) & (go.is_abs llm.tls_key_file ≡ true))
            & (go.dir llm.tls_cert_file ≡ go.dir llm.tls_key_file)
            & IsApart llm)

  abbrev pub IsValidOauth2 : Oauth2Spec → Type 0
  IsValidOauth2 oauth2 =
      oauth2.enabled ≡ true
      → (IsPresent oauth2.token_url & IsHttpsUrl go oauth2.token_url)
        & IsPresent oauth2.credentials_secret_ref

  -- What a profile has to satisfy.
  abbrev pub IsValidProfile : ProfileSpec → Type 0
  IsValidProfile llm =
      IsPresent llm.provider
      & IsPresent llm.model
      & IsPresent llm.credentials_secret_name
      & IsValidTuning llm
      & (llm.provider ≡ open_ai → IsPresent llm.endpoint)
      & IsValidTls llm
      & IsValidOauth2 llm.oauth2
      & Given (IsValidReasoning llm.provider) llm.reasoning

-- Mutual TLS is configured wholly, or not at all.
abbrev pub IsMutualTls : ProfileSpec → Type 0
IsMutualTls llm =
    IsPresent llm.tls_cert_file × IsPresent llm.tls_key_file × IsPresent llm.tls_client_secret_ref

abbrev pub IsNoMutualTls : ProfileSpec → Type 0
IsNoMutualTls llm =
    (llm.tls_cert_file ≡ "") × (llm.tls_key_file ≡ "") × (llm.tls_client_secret_ref ≡ "")
