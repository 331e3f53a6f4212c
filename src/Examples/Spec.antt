-- ===== src/Examples/Spec.antt =====
-- The spec that the examples share, which every validation accepts.
use kubernaut_operator.Base.{pos, false, none, some, [], ◌∷◌}
use kubernaut_operator.Api.DataStorage.{DataStorageSpec, ServerSpec}
use kubernaut_operator.Api.Llm.{ProfileSpec, AgentSpec}
use kubernaut_operator.Api.Frontend.{FrontendSpec}
use kubernaut_operator.Api.Telemetry.{TelemetrySpec}
use kubernaut_operator.Api.Fleet.{FleetSpec, FleetOverrides}
use kubernaut_operator.Api.Network.{NetworkPoliciesSpec, IngressOverride, NamedOverride}
use kubernaut_operator.Kubernaut.{Spec}

abbrev pub no_telemetry : TelemetrySpec
no_telemetry = record {
  endpoint = "";
  tls = record {
    ca_file = "";
    ca_cert_secret_ref = none;
    cert_file = "";
    key_file = "";
    tls_client_secret_ref = "";
  };
}

abbrev pub sample_server : ServerSpec
sample_server = record {
  read_timeout = "30s";
  write_timeout = "";
  max_concurrent_requests = some (pos 10);
  rate_limit = none;
}

abbrev pub sample_storage : DataStorageSpec
sample_storage = record {
  server = some sample_server;
  database = none;
  redis = none;
  audit = none;
  endpoint_propagation_delay = "";
  telemetry = no_telemetry;
}

abbrev pub sample_profile : ProfileSpec
sample_profile = record {
  provider = "openai";
  model = "gpt-4o";
  credentials_secret_name = "llm";
  endpoint = "https://llm";
  temperature = "";
  max_retries = none;
  timeout_seconds = some (pos 30);
  tls_ca_file = "";
  tls_ca_secret_ref = none;
  tls_cert_file = "";
  tls_key_file = "";
  tls_client_secret_ref = "";
  oauth2 = record { enabled = false; token_url = ""; credentials_secret_ref = "" };
  reasoning = none;
}

abbrev pub sample_agent : AgentSpec
sample_agent = record {
  investigation_profile_ref = "";
  workflow_discovery_profile_ref = "";
  alignment_check = record {
    enabled = false;
    timeout = "";
    max_step_tokens = pos 0;
    llm_profile_ref = "";
  };
  interactive = none;
  telemetry = no_telemetry;
}

abbrev pub sample_frontend : FrontendSpec
sample_frontend = record {
  enabled = none;
  auth = record { issuer_url = ""; allow_insecure_issuers = false; jwt_providers = [] };
  llm_profile_ref = "";
  severity_triage = none;
  agent_card_url = "";
  rbac_roles_config_map = none;
  rbac = none;
}

abbrev pub sample_fleet : FleetSpec
sample_fleet = record {
  enabled = none;
  mcp_gateway = record { type = ""; endpoint = ""; namespace = ""; tls = none };
  scope_check = record { backend = ""; acm = none };
  oauth2 = record { token_url = ""; credentials_secret_ref = ""; tls = none };
  mcp_client = none;
}

abbrev pub no_overrides : FleetOverrides
no_overrides = record {
  gateway = none;
  remediation_orchestrator = none;
  signal_processing = none;
  api_frontend = none;
  effectiveness_monitor = none;
  kubernaut_agent = none;
  metadata_cache = none;
  workflow_execution = "";
}

abbrev pub closed : IngressOverride
closed = record { ingress_cidrs = []; ingress_namespace_selectors = [] }

abbrev pub closed_named : NamedOverride
closed_named = record { override = closed; ingress_namespaces = [] }

abbrev pub sample_networks : NetworkPoliciesSpec
sample_networks = record {
  scrape_sources = [];
  gateway = record closed_named { ingress_namespaces = "edge" ∷ [] };
  api_frontend = closed_named;
  console = closed_named;
  data_storage = closed;
  kubernaut_agent = closed;
}

abbrev pub sample_spec : Spec
sample_spec = record {
  postgresql_host = "db";
  postgresql_port = 0;
  postgresql_ssl_mode = "";
  postgresql_secret = "pg";
  valkey_host = "cache";
  valkey_secret = "vk";
  data_storage = sample_storage;
  llm_profiles = ("main", sample_profile) ∷ [];
  kubernaut_agent = sample_agent;
  api_frontend = sample_frontend;
  console = record { enabled = none; redirect_url = ""; provider_logout_url = "" };
  gateway_enabled = none;
  gateway_telemetry = no_telemetry;
  monitoring = record { prometheus_url = ""; alert_manager_url = ""; ca_cert_secret_ref = none };
  notification_credentials = [];
  dry_run = false;
  dry_run_hold_period = "";
  fleet = sample_fleet;
  fleet_overrides = no_overrides;
  network_policies = sample_networks;
  workflow_namespace = "";
  ai_analysis_policy = "";
  signal_processing_policy = "";
  runtime_config_map = "";
  routing_config_map = none;
  console_secret = "console";
  valkey_tls = none;
  triage_llm_enabled = none;
}
