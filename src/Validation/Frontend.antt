-- ===== src/Validation/Frontend.antt =====
-- The section of the API frontend (validateAPIFrontend, validateJWTProviderList,
-- validateToolRoleBindings and what they call, in internal/resources/validation.go). Paths leave out
-- the index of an entry.
pub mod Rules
pub mod Accepted
use Prim.Native.String.{len}
use kubernaut_operator.Base.{
  ltb, String, Bool, true, false, not, ◌&&◌, ◌||◌, Option, none, some, List, [], ◌∷◌, ◌==◌,
  if◌then◌else◌, contains, is_empty, is_some,
}
use kubernaut_operator.Api.Frontend.{
  JwtProviderSpec, ToolRoleBinding, FrontendRbacSpec, FrontendSpec,
}
use kubernaut_operator.Api.Llm.{enabled_on_request}
use kubernaut_operator.Kube.Op.{Error, message}
use kubernaut_operator.Validation.Checks.{
  at, issue, report, only, unless, to_list, first, fails, when_given, ◌+++◌,
}
use kubernaut_operator.Validation.Seen.{loop}
use kubernaut_operator.Validation.Go.{Go}
use kubernaut_operator.Validation.Urls.{rejects_absolute, validate_oidc_url}

-- validToolPersonas
abbrev pub valid_tool_personas : List String
valid_tool_personas =
    "sre" ∷ "ai-orchestrator" ∷ "cicd" ∷ "observability" ∷ "l3-audit" ∷ "remediation-approver" ∷ []

-- validateToolRoleBinding: its error, and the names seen after it
abbrev pub seen_persona : String → List String → Option Error × List String
seen_persona role seen =
    if contains seen role
    then (some (message "spec.apiFrontend.rbac.roleBindings: duplicate role"), seen)
    else (
      first (not (contains valid_tool_personas role))
          (message "spec.apiFrontend.rbac.roleBindings: unknown persona") none,
      role ∷ seen,
    )

abbrev pub seen_cluster_role : String → List String → Option Error × List String
seen_cluster_role name seen =
    if contains seen name
    then (some (message "spec.apiFrontend.rbac.roleBindings: duplicate clusterRoleName"), seen)
    else (none, name ∷ seen)

unfoldable pub validate_tool_role_binding :
    List String → ToolRoleBinding → Option Error × List String
validate_tool_role_binding seen rb =
    if not (rb.role == "") && not (rb.cluster_role_name == "")
    then (
      some (message "spec.apiFrontend.rbac.roleBindings: role and clusterRoleName are exclusive"),
      seen,
    )
    else if rb.role == "" && rb.cluster_role_name == ""
    then (
      some (message "spec.apiFrontend.rbac.roleBindings: role or clusterRoleName must be set"),
      seen,
    )
    else if rb.role == ""
    then seen_cluster_role rb.cluster_role_name seen
    else seen_persona rb.role seen

-- One round of the loop over the bindings.
abbrev pub binding_round : List String → ToolRoleBinding → List Error × List String
binding_round seen rb = let (e, after) = validate_tool_role_binding seen rb in (to_list e, after)

module _ (go : Go) where
  -- validateToolRoleBindings
  unfoldable pub validate_tool_role_bindings : Option FrontendRbacSpec → List Error
  validate_tool_role_bindings rbac = when_given rbac λ r.
      only (not (r.sar_cache_ttl == "")) (
        report (fails (go.parse_duration r.sar_cache_ttl) (λ d. false))
          (issue "spec.apiFrontend.rbac.sarCacheTTL" "invalid Go duration"))
      +++ loop binding_round [] r.role_bindings

  -- validateJWTProviderJWKSURL
  unfoldable pub validate_jwks_url : String → String → Bool → Option Error
  validate_jwks_url raw path allow_insecure =
      first (ltb 2048 (len raw)) (issue (at path ".jwksURL") "must be <= 2048 characters")
        (validate_oidc_url go raw (at path ".jwksURL") allow_insecure)

  -- validateJWTProvider
  unfoldable pub validate_jwt_provider : JwtProviderSpec → String → Bool → List Error
  validate_jwt_provider provider path allow_insecure =
      to_list (
        first (provider.issuer_url == "") (issue (at path ".issuerURL") "required")
          (validate_oidc_url go provider.issuer_url (at path ".issuerURL") allow_insecure))
      +++ report (is_empty provider.audiences)
          (issue (at path ".audiences") "at least one audience required")
      +++ only (not (provider.jwks_url == ""))
          (to_list (validate_jwks_url provider.jwks_url path allow_insecure))

  -- One round of validateJWTProviderList.
  unfoldable pub provider_round :
      String → Bool → List String → JwtProviderSpec → List Error × List String
  provider_round path allow_insecure seen provider = (
    report (contains seen provider.name) (issue (at path ".name") "duplicate provider name")
        +++ validate_jwt_provider provider path allow_insecure,
    provider.name ∷ seen,
  )

  -- validateJWTProviderList
  unfoldable pub validate_jwt_provider_list : List JwtProviderSpec → String → Bool → List Error
  validate_jwt_provider_list providers base_path allow_insecure =
      loop (provider_round (at base_path ".jwtProviders") allow_insecure) [] providers

  -- validateAPIFrontend
  unfoldable pub validate_api_frontend : FrontendSpec → List Error
  validate_api_frontend af = unless (not (enabled_on_request af.enabled)) (
      only (not (af.agent_card_url == "")) (
        report (fails (go.parse_url af.agent_card_url) rejects_absolute)
          (issue "spec.apiFrontend.agentCardURL" "must be a valid URL with scheme and host"))
      +++ only (is_empty af.auth.jwt_providers) (
          to_list (
            first (af.auth.issuer_url == "")
              (issue "spec.apiFrontend.auth.issuerURL" "required when jwtProviders is empty")
              (validate_oidc_url go af.auth.issuer_url "spec.apiFrontend.auth.issuerURL"
                af.auth.allow_insecure_issuers)))
      +++ when_given af.rbac_roles_config_map (λ ref.
        report (ref == "")
          (issue "spec.apiFrontend.rbacRolesConfigMapRef.configMapName" "must not be empty"))
      +++ validate_tool_role_bindings af.rbac
      +++ only (not (is_empty af.auth.jwt_providers)) (
          validate_jwt_provider_list af.auth.jwt_providers "spec.apiFrontend.auth"
            af.auth.allow_insecure_issuers))
