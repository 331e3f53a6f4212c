-- ===== src/Examples/Precreated.antt =====
-- The pre-created objects of the sample on the concrete cluster.
use kubernaut_operator.Base.{String, ◌≡◌, ◌↔◌, refl, true, some, [], ◌∷◌, ◌==◌, contains}
use kubernaut_operator.Kube.Object.{Object, Body, config_map, secret}
use kubernaut_operator.Kube.Op.{ok, err, message}
use kubernaut_operator.Validation.Checks.{◌&◌, first_of, first, issue, to_list, ◌+++◌}
use kubernaut_operator.Validation.Profiles.{effective_llm_profile_ref}
use kubernaut_operator.Base.Map.{lookup}
use kubernaut_operator.Precreated.Collector.{add_reference, add_json, mark_first}
use kubernaut_operator.Precreated.References.{
  precreated_references, ◌then_do◌, fleet_references, if_so, llm_references, profile_references,
  profile_material, console_reference, valkey_references, credential_references,
  config_map_references,
}
use kubernaut_operator.Precreated.Keys.{
  KeyMaterial, validate_precreated_configuration, validate_precreated, precreated_errors,
  validate_secret_keys, validate_config_map_keys, validate_value,
}
use kubernaut_operator.Precreated.Accepted.{AllPass, precreated_configuration_iff}
use kubernaut_operator.Precreated.Steps.{AreDistinct}
use kubernaut_operator.Precreated.Collected.{references_distinct}
use kubernaut_operator.Examples.Cluster.{find_latest, read, same_key, Cluster, live, cluster_client}
use kubernaut_operator.Examples.Cluster.Laws.{cluster-IsApiServer}
use kubernaut_operator.Examples.Samples.{settings, sample, empty_cluster}
use kubernaut_operator.Examples.Spec.{sample_spec}

-- Libraries that know the texts of the sample.
abbrev pub known_material : KeyMaterial
known_material = record {
  trim_space = λ value. value;
  lines = λ value. value ∷ [];
  has_prefix = λ value prefix. value == "package policy";
  yaml_fields = λ value. some 1;
  has_certificates = λ value. value == "certificate";
  is_json = λ value. value == "{}";
  is_key_pair = λ certificate key. certificate == key;
}

abbrev pub object_with : String → String → Body → Object
object_with kind name body = record settings { kind = kind; name = name; labels = []; body = body }

abbrev pub prepared_cluster : Cluster
prepared_cluster = record empty_cluster {
  log =
      live (
        object_with "ConfigMap" "aianalysis-policy"
          (config_map (("approval.rego", "package policy") ∷ []) []))
      ∷ live (
          object_with "ConfigMap" "signalprocessing-policy"
            (config_map (("policy.rego", "package policy") ∷ []) []))
      ∷ live (object_with "Secret" "llm" (secret (("api_key", "k") ∷ []) (some true)))
      ∷ [];
}

precreated_configuration_iff_example :
    let (result, after) =
      validate_precreated_configuration known_material cluster_client sample prepared_cluster in
    let collected = precreated_references sample_spec in
    ((result ≡ ok tt) ↔ (
      (collected.errs ≡ [])
      & AllPass known_material cluster_client "prod" collected.references prepared_cluster))
    × (cluster_client.history after ≡ cluster_client.history prepared_cluster)
precreated_configuration_iff_example =
    precreated_configuration_iff known_material cluster-IsApiServer sample prepared_cluster

references_distinct_example : AreDistinct (precreated_references sample_spec).references
references_distinct_example = references_distinct sample_spec

-- The objects of the sample pass.
sample_passes :
    (validate_precreated_configuration known_material cluster_client sample prepared_cluster).0
    ≡ ok tt
unfolding validate_precreated_configuration precreated_errors precreated_references
    validate_precreated ◌then_do◌ fleet_references if_so llm_references profile_references
    profile_material effective_llm_profile_ref lookup add_reference add_json mark_first
    console_reference valkey_references credential_references config_map_references contains
    validate_secret_keys validate_config_map_keys validate_value first_of first issue to_list ◌+++◌
    find_latest read same_key
sample_passes = refl

-- Without them, the sample does not.
nothing_fails :
    (validate_precreated_configuration known_material cluster_client sample empty_cluster).0
    ≡ err (message "pre-created configuration validation failed")
unfolding validate_precreated_configuration precreated_errors precreated_references
    validate_precreated ◌then_do◌ fleet_references if_so llm_references profile_references
    profile_material effective_llm_profile_ref lookup add_reference add_json mark_first
    console_reference valkey_references credential_references config_map_references contains
    validate_secret_keys validate_config_map_keys validate_value first_of first issue to_list ◌+++◌
    find_latest read same_key
nothing_fails = refl
