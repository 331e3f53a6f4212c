-- ===== src/Examples/Startup.antt =====
-- The validation at the sample on the concrete cluster: the key for the audit is made, and every check
-- passes.
use kubernaut_operator.Base.{◌≡◌, refl, true, some, ◌∷◌, contains}
use kubernaut_operator.Kube.Object.{secret}
use kubernaut_operator.Kube.Op.{ok, pure}
use kubernaut_operator.Status.{
  no_requeue, patch_status, phase_order, put_condition, set_condition_and_requeue, set_phase,
}
use kubernaut_operator.Startup.{
  check_input, host_characters, phase_validate, read_secret, unless_handled,
  validate_database_inputs, validate_hostname, ◌then_check◌,
}
use kubernaut_operator.Hash.{spec_hash, strip_server_metadata}
use kubernaut_operator.Drift.{text_drifted}
use kubernaut_operator.Startup.Gate.{IsValidated, phase_validate_gate}
use kubernaut_operator.Examples.Cluster.{
  Cluster, live, append, create_new, find_latest, put_kubernaut, read, remove, replace, same_key,
  store_kubernaut,
}
use kubernaut_operator.Examples.Cluster.Laws.{cluster-IsApiServer}
use kubernaut_operator.Examples.Library.{library, texts}
use kubernaut_operator.Examples.Samples.{start}
use kubernaut_operator.Examples.Validation.{go}
use kubernaut_operator.Examples.Credentials.{entries, cache_entries}
use kubernaut_operator.Examples.Precreated.{known_material, object_with, prepared_cluster}
use kubernaut_operator.AuditKey.{
  create_generated, create_or_get_secret, ensure_audit_hash_key, initialize_generated,
  initialize_key, initialize_new_key, provision, reconcile_existing, validate_effective_secret,
  validate_identity, validate_state, verify_secret,
}
use kubernaut_operator.AuditKey.Material.{
  checked_value, component_labels, fingerprint, key_value, new_object, new_secret, reference_for,
  state_object, validate_name, validate_reference,
}
use kubernaut_operator.AuditKey.Names.{byte_count, name_characters}
use kubernaut_operator.Base.Map.{insert}
use kubernaut_operator.Credentials.{
  parse_credential, required_value, validate_postgresql_secret, validate_valkey_secret,
}
use kubernaut_operator.Ensure.{
  check_resource_ownership, create_or_read_existing, ensure_resource, is_current, prepare,
  read_or_create, read_raced, record_conflict, repair_ownership, replacement, same_values,
  send_update, update_if_changed,
}
use kubernaut_operator.Ownership.{
  marker_label, owner_refs_match, ownership_marker_matches, resource_owner_matches,
  resource_ownership_error, sole_owner_matches, stamp_ownership,
}
use kubernaut_operator.Precreated.Collector.{add_reference}
use kubernaut_operator.Precreated.Keys.{
  precreated_errors, validate_config_map_keys, validate_precreated,
  validate_precreated_configuration, validate_precreated_phase, validate_secret_keys,
  validate_value,
}
use kubernaut_operator.Precreated.References.{
  config_map_references, console_reference, credential_references, fleet_references, if_so,
  llm_references, precreated_references, profile_material, profile_references, valkey_references,
  ◌then_do◌,
}
use kubernaut_operator.Validation.Agent.{
  validate_alignment_check, validate_dry_run, validate_interactive,
}
use kubernaut_operator.Validation.Checks.{
  first, first_of, for_each, only, report, to_list, unless, when_given, ◌+++◌,
}
use kubernaut_operator.Validation.Console.{
  parse_logout_url, query_contains_placeholder, unsupported_parameter,
  validate_console_effective_issuer, validate_console_provider_logout_url,
  validate_console_redirect_url, validate_logout_authority, validate_logout_placeholders,
  validate_logout_shape,
}
use kubernaut_operator.Validation.DataStorage.{
  validate_audit, validate_data_storage, validate_database, validate_maximum_int,
  validate_non_negative_int, validate_positive_duration, validate_positive_int, validate_redis,
  validate_server,
}
use kubernaut_operator.Validation.Fleet.{
  validate_fleet, validate_fleet_config, validate_fleet_metadata_cache,
}
use kubernaut_operator.Validation.Frontend.{
  provider_round, validate_api_frontend, validate_jwks_url, validate_jwt_provider,
  validate_jwt_provider_list, validate_tool_role_binding, validate_tool_role_bindings,
}
use kubernaut_operator.Validation.Observability.{
  validate_credential, validate_monitoring_ca_ref, validate_monitoring_endpoints,
  validate_monitoring_tls, validate_notification_credentials,
}
use kubernaut_operator.Validation.Profiles.{
  effective_llm_profile_ref, lookup_profile_ref, validate_af_llm_profile_refs,
  validate_llm_profile_ca, validate_llm_profile_content, validate_llm_profile_oauth2,
  validate_llm_profile_refs, validate_llm_profile_tls, validate_llm_profile_tuning,
  validate_llm_profiles, validate_llm_reasoning, validate_material_names, validate_path_collisions,
  validate_required_effective_profile,
}
use kubernaut_operator.Validation.Seen.{loop}
use kubernaut_operator.Validation.Telemetry.{
  normalize_telemetry_endpoint, validate_telemetry, validate_telemetry_ca,
  validate_telemetry_client, validate_telemetry_client_paths, validate_telemetry_endpoint,
  validate_telemetry_host_port, validate_telemetry_port, validate_telemetry_secret_client_paths,
  validate_telemetry_spec,
}
use kubernaut_operator.Validation.Urls.{validate_fleet_https_url, validate_oidc_url}
use kubernaut_operator.Validation.Whole.{validate_kubernaut, validate_ssl_mode}

abbrev complete_cluster : Cluster
complete_cluster = record prepared_cluster {
  log =
      live (object_with "Secret" "pg" (secret entries (some true)))
      ∷ live (object_with "Secret" "vk" (secret cache_entries (some true)))
      ∷ prepared_cluster.log;
}

sample_starts :
    (phase_validate library texts
      (ok "a2V5")
      go
      known_material
      (pure no_requeue)
      (start complete_cluster)).0
    ≡ ok no_requeue
unfolding spec_hash strip_server_metadata text_drifted add_reference append byte_count check_input
    check_resource_ownership checked_value component_labels config_map_references console_reference
    contains create_generated create_new create_or_get_secret create_or_read_existing
    credential_references effective_llm_profile_ref ensure_audit_hash_key ensure_resource
    find_latest fingerprint first first_of fleet_references for_each host_characters if_so
    initialize_generated initialize_key initialize_new_key insert is_current key_value
    llm_references lookup_profile_ref loop marker_label name_characters new_object new_secret
    normalize_telemetry_endpoint only owner_refs_match ownership_marker_matches parse_credential
    parse_logout_url patch_status phase_order phase_validate precreated_errors precreated_references
    prepare profile_material profile_references provider_round provision put_condition put_kubernaut
    query_contains_placeholder read read_or_create read_raced read_secret reconcile_existing
    record_conflict reference_for remove repair_ownership replace replacement report required_value
    resource_owner_matches resource_ownership_error same_key same_values send_update
    set_condition_and_requeue set_phase sole_owner_matches stamp_ownership state_object
    store_kubernaut to_list unless unless_handled unsupported_parameter update_if_changed
    validate_af_llm_profile_refs validate_alignment_check validate_api_frontend validate_audit
    validate_config_map_keys validate_console_effective_issuer validate_console_provider_logout_url
    validate_console_redirect_url validate_credential validate_data_storage validate_database
    validate_database_inputs validate_dry_run validate_effective_secret validate_fleet
    validate_fleet_config validate_fleet_https_url validate_fleet_metadata_cache validate_hostname
    validate_identity validate_interactive validate_jwks_url validate_jwt_provider
    validate_jwt_provider_list validate_kubernaut validate_llm_profile_ca
    validate_llm_profile_content validate_llm_profile_oauth2 validate_llm_profile_refs
    validate_llm_profile_tls validate_llm_profile_tuning validate_llm_profiles
    validate_llm_reasoning validate_logout_authority validate_logout_placeholders
    validate_logout_shape validate_material_names validate_maximum_int validate_monitoring_ca_ref
    validate_monitoring_endpoints validate_monitoring_tls validate_name validate_non_negative_int
    validate_notification_credentials validate_oidc_url validate_path_collisions
    validate_positive_duration validate_positive_int validate_postgresql_secret validate_precreated
    validate_precreated_configuration validate_precreated_phase validate_redis validate_reference
    validate_required_effective_profile validate_secret_keys validate_server validate_ssl_mode
    validate_state validate_telemetry validate_telemetry_ca validate_telemetry_client
    validate_telemetry_client_paths validate_telemetry_endpoint validate_telemetry_host_port
    validate_telemetry_port validate_telemetry_secret_client_paths validate_telemetry_spec
    validate_tool_role_binding validate_tool_role_bindings validate_valkey_secret validate_value
    valkey_references verify_secret when_given ◌+++◌ ◌then_check◌ ◌then_do◌
sample_starts = refl

phase_validate_gate_example :
    IsValidated library texts
      (ok "a2V5")
      go
      known_material
      (pure no_requeue)
      (start complete_cluster)
phase_validate_gate_example =
    phase_validate_gate library texts (ok "a2V5") cluster-IsApiServer go known_material
      (pure no_requeue) (start complete_cluster) sample_starts
