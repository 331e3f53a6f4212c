-- ===== src/Validation/Frontend/Accepted.antt =====
-- What the section of the API frontend has to satisfy (validateAPIFrontend of
-- internal/resources/validation.go).
use Prim.Native.String.{len}
use kubernaut_operator.Base.{
  String, ◌≡◌, ◌↔◌, refl, Bool, Option, some, List, [], contains, is_empty,
}
use kubernaut_operator.Api.Frontend.{JwtProviderSpec, FrontendRbacSpec, FrontendSpec}
use kubernaut_operator.Api.Llm.{enabled_on_request}
use kubernaut_operator.Validation.Checks.{Given}
use kubernaut_operator.Validation.Accept.{
  not_above, ◌⊗◌, report_iff, only_iff, unless_iff, optional_iff, to_list_iff, first_iff, fails_iff,
  flip_false, flip_true, or_false, differs, differs_not, is_true, is_false,
}
use kubernaut_operator.Validation.Seen.{loop_iff}
use kubernaut_operator.Validation.Go.{Go}
use kubernaut_operator.Validation.Urls.{issuer_url_iff}
use kubernaut_operator.Validation.Frontend.{
  validate_tool_role_bindings, validate_jwks_url, validate_jwt_provider, provider_round,
  validate_jwt_provider_list, validate_api_frontend,
}
use kubernaut_operator.Validation.Frontend.Rules.{
  binding_name, IsValidRbac, IsValidProvider, AreValidProviders, IsValidFrontend, binding_accepts,
  binding_adds,
}

module _ (go : Go) where
  bindings_iff :
      (rbac : Option FrontendRbacSpec)
      → (validate_tool_role_bindings go rbac ≡ []) ↔ Given (IsValidRbac go) rbac
  unfolding validate_tool_role_bindings
  bindings_iff rbac = optional_iff rbac λ r.
      only_iff (differs_not r.sar_cache_ttl "")
        (report_iff _ (fails_iff (go.parse_duration r.sar_cache_ttl) λ d. (λ h. tt, λ h. refl)))
      ⊗ loop_iff (λ rb. some (binding_name rb)) binding_accepts binding_adds r.role_bindings

  provider_iff :
      (path : String) (allow_insecure : Bool) (provider : JwtProviderSpec)
      → (validate_jwt_provider go provider path allow_insecure ≡ [])
        ↔ IsValidProvider go allow_insecure provider
  unfolding validate_jwt_provider validate_jwks_url
  provider_iff path allow_insecure provider =
      to_list_iff (
        first_iff _ (differs provider.issuer_url "")
          (issuer_url_iff go provider.issuer_url _ allow_insecure))
      ⊗ report_iff _ (is_false (is_empty provider.audiences))
      ⊗ only_iff (differs_not provider.jwks_url "") (
          to_list_iff (
            first_iff _ (not_above 2048 (len provider.jwks_url))
              (issuer_url_iff go provider.jwks_url _ allow_insecure)))

  providers_iff :
      (providers : List JwtProviderSpec) (base_path : String) (allow_insecure : Bool)
      → (validate_jwt_provider_list go providers base_path allow_insecure ≡ [])
        ↔ AreValidProviders go allow_insecure providers
  unfolding validate_jwt_provider_list provider_round
  providers_iff providers base_path allow_insecure =
      loop_iff (λ p. some p.name)
        (λ seen p.
          let both =
            report_iff _ (is_false (contains seen p.name)) ⊗ provider_iff _ allow_insecure p in
          (λ h. let (new, valid) = both.0 h in (valid, new), λ h. both.1 (h.1, h.0)))
        (λ seen p h. refl) providers

  pub frontend_iff :
      (af : FrontendSpec) → (validate_api_frontend go af ≡ []) ↔ IsValidFrontend go af
  unfolding validate_api_frontend
  frontend_iff af = unless_iff (flip_false (is_true (enabled_on_request af.enabled))) (
      only_iff (differs_not af.agent_card_url "") (
        report_iff _ (
          fails_iff (go.parse_url af.agent_card_url)
            λ u. or_false (differs u.scheme "") (differs u.host "")))
      ⊗ only_iff (is_true (is_empty af.auth.jwt_providers)) (
          to_list_iff (
            first_iff _ (differs af.auth.issuer_url "")
              (issuer_url_iff go af.auth.issuer_url _ af.auth.allow_insecure_issuers)))
      ⊗ optional_iff af.rbac_roles_config_map (λ ref. report_iff _ (differs ref ""))
      ⊗ bindings_iff af.rbac
      ⊗ only_iff (flip_true (is_false (is_empty af.auth.jwt_providers)))
          (providers_iff af.auth.jwt_providers _ af.auth.allow_insecure_issuers))
