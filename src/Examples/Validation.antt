-- ===== src/Examples/Validation.antt =====
-- The validation at a concrete spec, with libraries that know the texts of that spec.
use kubernaut_operator.Base.{
  pos, ◌≡◌, ◌↔◌, ◌⊎◌, refl, true, false, not, Option, none, some, String, [], ◌==◌, if◌then◌else◌,
  contains,
}
use kubernaut_operator.Api.Llm.{ProfileSpec}
use kubernaut_operator.Kubernaut.{Spec}
use kubernaut_operator.Validation.Go.{Go, Url, finite}
use kubernaut_operator.Validation.Checks.{
  at, issue, report, only, unless, to_list, first, when_given, for_each, fails, ◌+++◌,
}
use kubernaut_operator.Validation.Whole.{
  validate_kubernaut, IsValidSpec, validate_kubernaut_iff, validate_ssl_mode,
}
use kubernaut_operator.Validation.Fleet.{
  validate_fleet, effective_secret_ref, count_missing, validate_fleet_trust,
  validate_fleet_scope_check, validate_fleet_mcp_gateway, validate_fleet_mcp_client,
  validate_fleet_oauth2, validate_fleet_config, validate_fleet_metadata_cache,
}
use kubernaut_operator.Validation.Fleet.Rules.{IsValidFleet}
use kubernaut_operator.Validation.Fleet.Accepted.{fleet_iff}
use kubernaut_operator.Validation.Profiles.{
  validate_llm_profile_content, validate_llm_profile_refs, validate_llm_reasoning,
  validate_llm_profile_tuning, validate_llm_profile_ca, validate_path_collisions, add_path,
  validate_material_names, validate_llm_profile_tls, validate_llm_profile_oauth2,
  lookup_profile_ref, validate_required_effective_profile, effective_llm_profile_ref,
  validate_af_llm_profile_refs, validate_llm_profiles,
}
use kubernaut_operator.Validation.Profiles.References.{IsValidReferences, references_iff}
use kubernaut_operator.Validation.Profiles.Rules.{IsMutualTls, IsNoMutualTls}
use kubernaut_operator.Validation.Profiles.Content.{client_files_together}
use kubernaut_operator.Validation.Telemetry.{
  validate_telemetry_endpoint, is_host_blocked, validate_telemetry_port,
  validate_telemetry_host_port, normalize_telemetry_endpoint, validate_telemetry_ca,
  validate_telemetry_client_paths, validate_telemetry_secret_client_paths,
  validate_telemetry_client, validate_telemetry_spec, validate_telemetry,
}
use kubernaut_operator.Validation.Telemetry.Endpoint.{IsValidEndpoint, telemetry_endpoint_iff}
use kubernaut_operator.Validation.DataStorage.{
  validate_data_storage, IsValidDataStorage, data_storage_iff, validate_non_negative_int,
  validate_positive_int, validate_maximum_int, validate_positive_duration, validate_server,
  validate_database, validate_audit, validate_redis,
}
use kubernaut_operator.Validation.Frontend.{
  validate_api_frontend, validate_tool_role_binding, validate_tool_role_bindings, validate_jwks_url,
  validate_jwt_provider, provider_round, validate_jwt_provider_list,
}
use kubernaut_operator.Validation.Console.{
  validate_console_provider_logout_url, validate_console_effective_issuer,
  validate_console_redirect_url, validate_logout_shape, validate_logout_placeholders,
  query_contains_placeholder, unsupported_parameter, parse_logout_url, canonical_https_authority,
  validate_logout_authority,
}
use kubernaut_operator.Validation.Console.Rules.{IsValidLogout}
use kubernaut_operator.Validation.Console.Logout.{logout_iff}
use kubernaut_operator.Validation.Seen.{add_new, loop}
use kubernaut_operator.Validation.Urls.{validate_fleet_https_url, validate_oidc_url}
use kubernaut_operator.Validation.Digits.{only_digits, all_ascii_digits}
use kubernaut_operator.Validation.Observability.{
  validate_credential, validate_notification_credentials, validate_monitoring_endpoints,
  validate_monitoring_ca_ref, validate_monitoring_tls,
}
use kubernaut_operator.Validation.Agent.{
  validate_alignment_check, validate_dry_run, validate_interactive,
}
use kubernaut_operator.Base.Map.{lookup}
use kubernaut_operator.Examples.Spec.{
  sample_storage, sample_profile, sample_frontend, sample_fleet, no_overrides, sample_spec,
}

abbrev https : String → Url
https host = record {
  scheme = "https";
  host = host;
  hostname = host;
  port = "";
  has_user = false;
  opaque = "";
  path = "";
  escaped_path = "";
  raw_query = "";
  fragment = "";
}

abbrev known_url : String → Option Url
known_url raw =
    if raw == "https://llm"
    then some (https "llm")
    else if raw == "https://idp/logout"
    then some (https "idp")
    else if raw == "https://idp"
    then some (https "idp")
    else none

abbrev pub go : Go
go = record {
  parse_url = known_url;
  parse_query = λ raw. some [];
  parse_duration = λ raw. if raw == "30s" then some (pos 30000000000) else none;
  parse_float = λ raw. some finite;
  parse_ip = λ raw. none;
  atoi = λ raw. if raw == "4317" then some (pos 4317) else none;
  split_host_port = λ raw. if raw == "otel:4317" then some ("otel", "4317") else none;
  join_host_port = λ host port. host;
  trim_space = λ raw. raw;
  trim_brackets = λ raw. raw;
  to_lower = λ raw. raw;
  equal_fold = λ a b. a == b;
  contains_text = λ text part. false;
  contains_any = λ text chars. false;
  count_text = λ text part. 0;
  remove_all = λ text part. text;
  is_abs = λ path. not (path == "");
  base = λ path.
      if path == "/tls/tls.crt"
      then "tls.crt"
      else if path == "/tls/tls.key"
      then "tls.key"
      else path;
  dir = λ path.
      if path == "/tls/tls.crt" then "/tls" else if path == "/tls/tls.key" then "/tls" else ".";
  clean = λ path. path;
  is_label_value = λ name. not (name == "");
  is_dns1123_subdomain = λ name. not (name == "");
  is_config_map_key = λ key. not (key == "");
}

abbrev console_spec : Spec
console_spec = record sample_spec {
  api_frontend = record sample_frontend {
    auth = record {
      issuer_url = "https://idp";
      allow_insecure_issuers = false;
      jwt_providers = [];
    };
  };
  console = record {
    enabled = some true;
    redirect_url = "";
    provider_logout_url = "https://idp/logout";
  };
}

abbrev fleet_spec : Spec
fleet_spec = record sample_spec {
  fleet = record sample_fleet { enabled = some true };
  fleet_overrides = record no_overrides { workflow_execution = "writer" };
}

abbrev tls_profile : ProfileSpec
tls_profile = record sample_profile {
  tls_cert_file = "/tls/tls.crt";
  tls_key_file = "/tls/tls.key";
  tls_client_secret_ref = "client";
}

validate_kubernaut_iff_example :
    (validate_kubernaut go sample_spec ≡ []) ↔ IsValidSpec go sample_spec
validate_kubernaut_iff_example = validate_kubernaut_iff go sample_spec

fleet_iff_example : (validate_fleet go fleet_spec ≡ []) ↔ IsValidFleet go fleet_spec
fleet_iff_example = fleet_iff go fleet_spec

references_iff_example :
    (validate_llm_profile_refs sample_spec ≡ []) ↔ IsValidReferences sample_spec
references_iff_example = references_iff sample_spec

telemetry_endpoint_iff_example :
    (validate_telemetry_endpoint go "otel:4317" ≡ none) ↔ IsValidEndpoint go "otel:4317"
telemetry_endpoint_iff_example = telemetry_endpoint_iff go "otel:4317"

data_storage_iff_example :
    (validate_data_storage go sample_storage ≡ []) ↔ IsValidDataStorage go sample_storage
data_storage_iff_example = data_storage_iff go sample_storage

logout_iff_example :
    (validate_console_provider_logout_url go console_spec ≡ none) ↔ IsValidLogout go console_spec
logout_iff_example = logout_iff go console_spec

tls_accepted : validate_llm_profile_content go "spec.llmProfiles.main" tls_profile ≡ []
unfolding validate_llm_profile_content ◌+++◌ report validate_llm_profile_tuning when_given only
    validate_llm_profile_tls validate_llm_profile_ca validate_material_names loop add_path add_new
    contains unless validate_path_collisions validate_llm_profile_oauth2 validate_llm_reasoning
tls_accepted = refl

client_files_together_example : IsMutualTls tls_profile ⊎ IsNoMutualTls tls_profile
client_files_together_example =
    client_files_together go "spec.llmProfiles.main" tls_profile tls_accepted

sample_accepted : validate_kubernaut go sample_spec ≡ []
unfolding at issue report only unless to_list first ◌+++◌ when_given for_each fails add_new loop
    validate_fleet_https_url validate_oidc_url only_digits all_ascii_digits
    validate_non_negative_int validate_positive_int validate_maximum_int validate_positive_duration
    validate_server validate_database validate_audit validate_redis validate_data_storage
    validate_llm_reasoning validate_llm_profile_tuning validate_llm_profile_ca
    validate_path_collisions add_path validate_material_names validate_llm_profile_tls
    validate_llm_profile_oauth2 validate_llm_profile_content lookup_profile_ref
    validate_required_effective_profile effective_llm_profile_ref validate_af_llm_profile_refs
    validate_llm_profile_refs validate_llm_profiles validate_credential
    validate_notification_credentials validate_monitoring_endpoints validate_monitoring_ca_ref
    validate_monitoring_tls is_host_blocked validate_telemetry_port validate_telemetry_host_port
    normalize_telemetry_endpoint validate_telemetry_endpoint validate_telemetry_ca
    validate_telemetry_client_paths validate_telemetry_secret_client_paths validate_telemetry_client
    validate_telemetry_spec validate_telemetry validate_tool_role_binding
    validate_tool_role_bindings validate_jwks_url validate_jwt_provider provider_round
    validate_jwt_provider_list validate_api_frontend validate_console_effective_issuer
    validate_console_redirect_url validate_logout_shape validate_logout_placeholders
    query_contains_placeholder unsupported_parameter parse_logout_url canonical_https_authority
    validate_logout_authority validate_console_provider_logout_url validate_alignment_check
    validate_dry_run validate_interactive validate_ssl_mode validate_kubernaut contains lookup
sample_accepted = refl

endpoint_accepted : validate_telemetry_endpoint go "otel:4317" ≡ none
unfolding validate_telemetry_endpoint normalize_telemetry_endpoint validate_telemetry_host_port
    is_host_blocked validate_telemetry_port first fails all_ascii_digits only_digits
endpoint_accepted = refl

abbrev valid_fleet_spec : Spec
valid_fleet_spec = record sample_spec {
  fleet = record {
    enabled = some true;
    mcp_gateway = record {
      type = "kuadrant";
      endpoint = "https://llm";
      namespace = "mcp";
      tls = none;
    };
    scope_check = record { backend = "fleetmetadatacache"; acm = none };
    oauth2 = record { token_url = "https://idp"; credentials_secret_ref = "reader"; tls = none };
    mcp_client = none;
  };
  fleet_overrides = record no_overrides { workflow_execution = "writer" };
}

fleet_accepted : validate_fleet go valid_fleet_spec ≡ []
unfolding at issue report unless to_list first ◌+++◌ when_given fails validate_fleet_https_url
    validate_oidc_url effective_secret_ref count_missing validate_fleet_trust
    validate_fleet_scope_check validate_fleet_mcp_gateway validate_fleet_mcp_client
    validate_fleet_oauth2 validate_fleet_config validate_fleet_metadata_cache validate_fleet
fleet_accepted = refl
