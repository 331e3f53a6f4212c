-- ===== src/Api/Frontend.antt =====
-- The API frontend and the console (api/v1alpha2/kubernaut_types.go).
use kubernaut_operator.Base.{String, Bool, Option, List}

-- JWTProviderSpec
pub record JwtProviderSpec : Type 0 where
  pub name : String
  pub issuer_url : String
  pub jwks_url : String
  pub audiences : List String

-- APIFrontendAuthSpec
pub record FrontendAuthSpec : Type 0 where
  pub issuer_url : String
  pub allow_insecure_issuers : Bool
  pub jwt_providers : List JwtProviderSpec

-- ToolRoleBinding
pub record ToolRoleBinding : Type 0 where
  pub role : String
  pub cluster_role_name : String

-- APIFrontendRBACSpec
pub record FrontendRbacSpec : Type 0 where
  pub sar_cache_ttl : String
  pub role_bindings : List ToolRoleBinding

-- APIFrontendSpec; `severity_triage` is the profile of SeverityTriage, `rbac_roles_config_map` the
-- name in RBACRolesConfigMapRef.
pub record FrontendSpec : Type 0 where
  pub enabled : Option Bool
  pub auth : FrontendAuthSpec
  pub llm_profile_ref : String
  pub severity_triage : Option String
  pub agent_card_url : String
  pub rbac_roles_config_map : Option String
  pub rbac : Option FrontendRbacSpec

-- ConsoleSpec with ConsoleAuthSpec
pub record ConsoleSpec : Type 0 where
  pub enabled : Option Bool
  pub redirect_url : String
  pub provider_logout_url : String
