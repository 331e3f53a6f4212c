-- ===== src/Validation/Profiles/Content.antt =====
-- What a profile has to satisfy (validateLLMProfileContent of internal/resources/validation.go).
use kubernaut_operator.Base.{
  at_least_iff, Bool-cases, inl, inr, String, ◌≡◌, ◌↔◌, ◌⊎◌, refl, not, true, false, Option, [],
  All,
}
use kubernaut_operator.Api.Llm.{Oauth2Spec, ReasoningSpec, ProfileSpec}
use kubernaut_operator.Kubernaut.{Spec}
use kubernaut_operator.Validation.Checks.{IsPresent, Given, ◌&◌}
use kubernaut_operator.Validation.Accept.{
  ◌⊗◌, report_iff, only_iff, unless_iff, optional_iff, each_iff, to_list_iff, first_iff, last_iff,
  fails_iff, flip_false, flip_true, or_false, or_true, and_false, and_true, same, same_not, differs,
  differs_not, is_true, is_false,
}
use kubernaut_operator.Validation.Go.{Go, Float, finite, infinite, not_a_number}
use kubernaut_operator.Validation.Urls.{fleet_url_iff}
use kubernaut_operator.Validation.Profiles.{
  open_ai, anthropic, vertex_ai, is_not_finite, uses_client, validate_llm_reasoning,
  validate_llm_profile_tuning, validate_llm_profile_ca, validate_path_collisions,
  validate_llm_profile_tls, validate_llm_profile_oauth2, validate_llm_profile_content,
  validate_llm_profiles,
}
use kubernaut_operator.Validation.Profiles.Material.{material_iff}
use kubernaut_operator.Validation.Profiles.References.{IsValidReferences, references_iff}
use kubernaut_operator.Validation.Profiles.Rules.{
  IsMutualTls, IsNoMutualTls, IsFinite, IsValidReasoning, IsValidTuning, IsValidCa, IsApart,
  IsValidTls, IsValidOauth2, IsValidProfile,
}

number_iff : (f : Float) → (is_not_finite f ≡ false) ↔ IsFinite f
number_iff finite = (λ h. refl, λ h. refl)
number_iff infinite = (λ h. cc, λ h. cc)
number_iff not_a_number = (λ h. cc, λ h. cc)

reasoning_iff :
    (base provider : String) (reasoning : Option ReasoningSpec)
    → (validate_llm_reasoning base reasoning provider ≡ [])
      ↔ Given (IsValidReasoning provider) reasoning
unfolding validate_llm_reasoning
reasoning_iff base provider reasoning = optional_iff reasoning λ r. report_iff _ (
    and_false (and_true (is_true r.enabled) (same r.effort "none"))
      (or_false (differs provider anthropic) (differs provider vertex_ai)))

-- `certSet`
uses_client_iff :
    (llm : ProfileSpec)
    → (uses_client llm ≡ true) ↔ (IsPresent llm.tls_cert_file ⊎ IsPresent llm.tls_key_file)
uses_client_iff llm = or_true (differs_not llm.tls_cert_file "") (differs_not llm.tls_key_file "")

no_client_iff :
    (llm : ProfileSpec)
    → (not (uses_client llm) ≡ true) ↔ ((llm.tls_cert_file ≡ "") & (llm.tls_key_file ≡ ""))
no_client_iff llm =
    flip_true (or_false (same_not llm.tls_cert_file "") (same_not llm.tls_key_file ""))

module _ (go : Go) (base : String) where
  tuning_iff :
      (llm : ProfileSpec) → (validate_llm_profile_tuning go base llm ≡ []) ↔ IsValidTuning go llm
  unfolding validate_llm_profile_tuning
  tuning_iff llm =
      optional_iff llm.max_retries (λ z. report_iff _ (at_least_iff 0 z))
      ⊗ optional_iff llm.timeout_seconds (λ z. report_iff _ (at_least_iff 1 z))
      ⊗ only_iff (differs_not llm.temperature "")
          (report_iff _ (fails_iff (go.parse_float llm.temperature) number_iff))

  ca_iff : (llm : ProfileSpec) → (validate_llm_profile_ca go base llm ≡ []) ↔ IsValidCa go llm
  unfolding validate_llm_profile_ca
  ca_iff llm =
      report_iff _ (and_false (differs_not llm.tls_ca_file "") (flip_false (is_true _)))
      ⊗ optional_iff llm.tls_ca_secret_ref (λ ref.
        report_iff _ (differs llm.tls_ca_file "")
        ⊗ to_list_iff (first_iff _ (differs ref.name "") (last_iff _ (flip_false (is_true _))))
        ⊗ report_iff _ (or_false (same_not _ _) (is_false _)))

  collisions_iff :
      (llm : ProfileSpec) → (validate_path_collisions go base llm ≡ []) ↔ IsApart go llm
  unfolding validate_path_collisions
  collisions_iff llm =
      optional_iff llm.tls_ca_secret_ref
        λ ref. report_iff _ (differs _ _) ⊗ report_iff _ (differs _ _)

  tls_iff : (llm : ProfileSpec) → (validate_llm_profile_tls go base llm ≡ []) ↔ IsValidTls go llm
  unfolding validate_llm_profile_tls
  tls_iff llm =
      ca_iff llm
      ⊗ report_iff _ (
          and_false (uses_client_iff llm)
            (or_false (differs llm.tls_cert_file "") (differs llm.tls_key_file "")))
      ⊗ report_iff _ (and_false (no_client_iff llm) (same_not llm.tls_client_secret_ref ""))
      ⊗ material_iff go base llm
      ⊗ unless_iff (flip_false (uses_client_iff llm)) (
          report_iff _ (differs llm.tls_client_secret_ref "")
          ⊗ report_iff _ (or_false (flip_false (is_true _)) (flip_false (is_true _)))
          ⊗ report_iff _ (same_not _ _)
          ⊗ collisions_iff llm)

  oauth2_iff :
      (oauth2 : Oauth2Spec)
      → (validate_llm_profile_oauth2 go base oauth2 ≡ []) ↔ IsValidOauth2 go oauth2
  unfolding validate_llm_profile_oauth2
  oauth2_iff oauth2 = unless_iff (flip_false (is_true oauth2.enabled)) (
      to_list_iff (first_iff _ (differs oauth2.token_url "") (fleet_url_iff go _ oauth2.token_url))
      ⊗ report_iff _ (differs oauth2.credentials_secret_ref ""))

  content_iff :
      (llm : ProfileSpec) → (validate_llm_profile_content go base llm ≡ []) ↔ IsValidProfile go llm
  unfolding validate_llm_profile_content
  content_iff llm =
      report_iff _ (differs llm.provider "")
      ⊗ report_iff _ (differs llm.model "")
      ⊗ report_iff _ (differs llm.credentials_secret_name "")
      ⊗ tuning_iff llm
      ⊗ report_iff _ (and_false (same llm.provider open_ai) (differs llm.endpoint ""))
      ⊗ tls_iff llm
      ⊗ oauth2_iff llm.oauth2
      ⊗ reasoning_iff base llm.provider llm.reasoning

-- What the profiles and the references to them have to satisfy.
abbrev pub IsValidProfiles : Go → Spec → Type 0
IsValidProfiles go spec =
    All (λ entry. IsValidProfile go entry.1) spec.llm_profiles & IsValidReferences spec

pub profiles_iff :
    (go : Go) (spec : Spec) → (validate_llm_profiles go spec ≡ []) ↔ IsValidProfiles go spec
unfolding validate_llm_profiles
profiles_iff go spec =
    each_iff spec.llm_profiles (λ entry. content_iff go _ entry.1) ⊗ references_iff spec

-- A profile that validateLLMProfileContent accepts configures mutual TLS wholly or not at all: the
-- file of the certificate, the file of the key and the Secret of the client are all set, or all
-- three are left out.
pub client_files_together :
    (go : Go) (base : String) (llm : ProfileSpec)
    → validate_llm_profile_content go base llm ≡ []
    → IsMutualTls llm ⊎ IsNoMutualTls llm
client_files_together go base llm h =
    let tls = ((content_iff go base llm).0 h).0.0.1 in
    elim (Bool-cases (uses_client llm)) [
      | inl e ↦
          let client = (uses_client_iff llm).0 e in
          let files = tls.0.0.0.1 client in inl (files.0, files.1, (tls.1 client).0.0.0)
      | inr e ↦
          let files = (no_client_iff llm).0 (rw e refl) in inr (files.0, files.1, tls.0.0.1 files)
    ]
