-- ===== src/Validation/Profiles/References.antt =====
-- Which profile a consumer of an LLM resolves to (effectiveLLMProfileRef of
-- internal/resources/common.go, validateLLMProfileRefs of internal/resources/validation.go).
use kubernaut_operator.Base.{
  String, ◌≡◌, ◌↔◌, refl, inl, inr, Bool-cases, true, false, none, [], ◌∷◌, ◌==◌, is_some, is_empty,
  eq_iff, eq_refl,
}
use kubernaut_operator.Base.Map.{Map, lookup}
use kubernaut_operator.Api.Llm.{ProfileSpec, enabled_on_request}
use kubernaut_operator.Kubernaut.{Spec}
use kubernaut_operator.Validation.Checks.{IsPresent, IfSet, Given, ◌&◌}
use kubernaut_operator.Validation.Accept.{
  ◌⊗◌, only_iff, optional_iff, to_list_iff, last_iff, flip_false, is_true, differs,
}
use kubernaut_operator.Validation.Profiles.{
  lookup_profile_ref, validate_required_effective_profile, sole_name, effective_llm_profile_ref,
  validate_af_llm_profile_refs, validate_llm_profile_refs,
}

module _ (profiles : Map ProfileSpec) where
  -- The reference names a profile of the map.
  abbrev pub IsDefined : String → Type 0
  IsDefined ref = is_some (lookup ref profiles) ≡ true

  -- A consumer resolves to a profile: by its own reference, which the map defines, or, without one,
  -- because the map has exactly one profile.
  pub data Resolves (explicit : String) : Type 0 where
    by_reference : IsPresent explicit → IsDefined explicit → Resolves explicit
    by_inference :
        explicit ≡ ""
        → (name : String) (profile : ProfileSpec) → profiles ≡ (name, profile) ∷ []
        → IsPresent name
        → Resolves explicit

  lookup_ref_iff :
      (ref path : String) → (lookup_profile_ref profiles ref path false ≡ none) ↔ IsDefined ref
  unfolding lookup_profile_ref
  lookup_ref_iff ref path = elim (Bool-cases (ref == "")) [
    | inl e ↦ rw e (last_iff _ (flip_false (is_true _)))
    | inr e ↦ rw e (last_iff _ (flip_false (is_true _)))
  ]

  optional_ref_iff :
      (ref path : String) → (lookup_profile_ref profiles ref path true ≡ none) ↔ IfSet IsDefined ref
  unfolding lookup_profile_ref
  optional_ref_iff ref path = elim (Bool-cases (ref == "")) [
    | inl e ↦ rw e (λ h n. absurd (n ((eq_iff ref "").0 e)), λ h. refl)
    | inr e ↦
        let found = last_iff _ (flip_false (is_true (is_some (lookup ref profiles)))) in
        rw e (λ h n. found.0 h, λ h. found.1 (h ((differs ref "").0 e)))
  ]

  required_iff :
      (ref path : String)
      → (validate_required_effective_profile profiles ref path ≡ [])
        ↔ (IsPresent ref & IsDefined ref)
  unfolding validate_required_effective_profile
  required_iff ref path = elim (Bool-cases (ref == "")) [
    | inl e ↦ elim (Bool-cases (is_empty profiles)) [
      | inl b ↦ rw (e, b) (λ h. cc, λ h. absurd (h.0 ((eq_iff ref "").0 e)))
      | inr b ↦ rw (e, b) (λ h. cc, λ h. absurd (h.0 ((eq_iff ref "").0 e)))
    ]
    | inr e ↦
        let found = to_list_iff (lookup_ref_iff ref path) in
        rw e (λ h. ((differs ref "").0 e, found.0 h), λ h. found.1 h.1)
  ]

sole_named :
    (profiles : Map ProfileSpec)
    → IsPresent (sole_name profiles)
    → (name : String) × (profile : ProfileSpec) × (profiles ≡ (name, profile) ∷ []) × IsPresent name
sole_named [] n = absurd (n refl)
sole_named ((name, profile) ∷ []) n = (name, profile, refl, n)
sole_named (entry ∷ other ∷ profiles) n = absurd (n refl)

module _ (profiles : Map ProfileSpec) where
  resolve :
      (explicit : String)
      → (let ref = effective_llm_profile_ref profiles explicit in
          IsPresent ref & IsDefined profiles ref)
      → Resolves profiles explicit
  unfolding effective_llm_profile_ref
  resolve explicit = elim (Bool-cases (explicit == "")) [
    | inr e ↦ rw e (λ h. by_reference h.0 h.1)
    | inl e ↦ rw e (λ h.
        let (name, profile, sole, n) = sole_named profiles h.0 in
        by_inference ((eq_iff explicit "").0 e) name profile sole n)
  ]

  resolved :
      (explicit : String)
      → Resolves profiles explicit
      → (let ref = effective_llm_profile_ref profiles explicit in
          IsPresent ref & IsDefined profiles ref)
  unfolding effective_llm_profile_ref lookup
  resolved explicit (by_reference n d) = rw ((differs explicit "").1 n) (n, d)
  resolved explicit (by_inference u name profile sole n) = rw (u, sole, eq_refl) (n, refl)

  consumer_iff :
      (explicit path : String)
      → (validate_required_effective_profile profiles
            (effective_llm_profile_ref profiles explicit)
            path
          ≡ [])
        ↔ Resolves profiles explicit
  consumer_iff explicit path =
      let required = required_iff profiles (effective_llm_profile_ref profiles explicit) path in
      (λ h. resolve explicit (required.0 h), λ h. required.1 (resolved explicit h))

module _ (spec : Spec) where
  -- What the references of the consumers have to satisfy.
  abbrev pub IsValidFrontendReferences : Type 0
  IsValidFrontendReferences =
      Resolves spec.llm_profiles spec.api_frontend.llm_profile_ref
      & Given (IfSet (IsDefined spec.llm_profiles)) spec.api_frontend.severity_triage

  abbrev pub IsValidReferences : Type 0
  IsValidReferences =
      Resolves spec.llm_profiles spec.kubernaut_agent.investigation_profile_ref
      & Resolves spec.llm_profiles spec.kubernaut_agent.workflow_discovery_profile_ref
      & (spec.kubernaut_agent.alignment_check.enabled ≡ true
          → Resolves spec.llm_profiles spec.kubernaut_agent.alignment_check.llm_profile_ref)
      & (enabled_on_request spec.api_frontend.enabled ≡ true → IsValidFrontendReferences)

  frontend_references_iff : (validate_af_llm_profile_refs spec ≡ []) ↔ IsValidFrontendReferences
  unfolding validate_af_llm_profile_refs
  frontend_references_iff =
      consumer_iff spec.llm_profiles spec.api_frontend.llm_profile_ref _
      ⊗ optional_iff spec.api_frontend.severity_triage
          (λ ref. to_list_iff (optional_ref_iff spec.llm_profiles ref _))

  -- validateLLMProfileRefs has no complaint exactly if every consumer that runs resolves to a
  -- profile, by a reference that the map defines or, without one, because the map has exactly one
  -- profile, of a name that is not empty: the investigation and the workflow discovery always, the
  -- alignment check and the API frontend where they are enabled. The severity triage of the API
  -- frontend may leave its reference out.
  pub references_iff : (validate_llm_profile_refs spec ≡ []) ↔ IsValidReferences
  unfolding validate_llm_profile_refs
  references_iff =
      consumer_iff spec.llm_profiles spec.kubernaut_agent.investigation_profile_ref _
      ⊗ consumer_iff spec.llm_profiles spec.kubernaut_agent.workflow_discovery_profile_ref _
      ⊗ only_iff (is_true _)
          (consumer_iff spec.llm_profiles spec.kubernaut_agent.alignment_check.llm_profile_ref _)
      ⊗ only_iff (is_true _) frontend_references_iff
