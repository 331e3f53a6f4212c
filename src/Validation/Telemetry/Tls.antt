-- ===== src/Validation/Telemetry/Tls.antt =====
-- What the telemetry of a component has to satisfy (validateTelemetrySpec of
-- internal/resources/validation.go).
use kubernaut_operator.Base.{
  String, ◌≡◌, ◌≢◌, ◌↔◌, ◌⊎◌, refl, true, false, Option, none, some, [], is_some,
}
use kubernaut_operator.Api.Telemetry.{TelemetryTls, TelemetrySpec}
use kubernaut_operator.Api.Llm.{enabled_by_default}
use kubernaut_operator.Kube.Op.{Error}
use kubernaut_operator.Kubernaut.{Spec}
use kubernaut_operator.Validation.Checks.{IsPresent, IfSet, Given, ◌&◌}
use kubernaut_operator.Validation.Accept.{
  ◌⊗◌, report_iff, only_iff, unless_iff, optional_iff, flip_false, or_false, or_true, and_false,
  same_not, differs, differs_not, is_true, is_false,
}
use kubernaut_operator.Validation.Go.{Go}
use kubernaut_operator.Validation.Telemetry.{
  telemetry_mount_dir, telemetry_ca_file, presents_client, in_field, validate_telemetry_ca,
  validate_telemetry_client_paths, validate_telemetry_secret_client_paths,
  validate_telemetry_client, validate_telemetry_spec, validate_telemetry,
}
use kubernaut_operator.Validation.Telemetry.Endpoint.{IsValidEndpoint, telemetry_endpoint_iff}

module _ (go : Go) where
  abbrev pub IsValidCa : TelemetryTls → Type 0
  IsValidCa tls =
      (IsPresent tls.ca_file → is_some tls.ca_cert_secret_ref ≡ false)
      & IfSet (λ file. go.is_abs file ≡ true) tls.ca_file
      & Given
          (λ ref.
            IsPresent ref.name
            & IfSet (λ key. (go.base key ≡ key) & (go.contains_any key "\\\\/" ≡ false)) ref.key)
          tls.ca_cert_secret_ref

  -- The two files of a client are absolute and differ.
  abbrev pub HasClientPaths : TelemetryTls → Type 0
  HasClientPaths tls =
      (go.is_abs tls.cert_file ≡ true)
      & (go.is_abs tls.key_file ≡ true)
      & (go.clean tls.cert_file ≢ go.clean tls.key_file)

  -- The two files of a client whose material a Secret holds lie in the directory of the mount, under
  -- names that differ and are not that of the authority's file.
  abbrev pub HasSecretPaths : TelemetryTls → Type 0
  HasSecretPaths tls =
      (go.dir tls.cert_file ≡ go.dir tls.key_file)
      & (go.dir (go.clean tls.cert_file) ≡ telemetry_mount_dir)
      & (go.base tls.cert_file ≢ go.base tls.key_file)
      & (is_some tls.ca_cert_secret_ref ≡ true
          → (go.clean tls.cert_file ≢ telemetry_ca_file)
            & (go.clean tls.key_file ≢ telemetry_ca_file))

  abbrev pub IsValidClient : TelemetryTls → Type 0
  IsValidClient tls =
      (IsPresent tls.cert_file ⊎ IsPresent tls.key_file
        → IsPresent tls.cert_file & IsPresent tls.key_file)
      & (IsPresent tls.tls_client_secret_ref → IsPresent tls.cert_file ⊎ IsPresent tls.key_file)
      & (IsPresent tls.cert_file ⊎ IsPresent tls.key_file
          → HasClientPaths tls & IfSet (λ ref. HasSecretPaths tls) tls.tls_client_secret_ref)

  -- What the telemetry of one component has to satisfy.
  abbrev pub IsValidTelemetry : TelemetrySpec → Type 0
  IsValidTelemetry telemetry =
      IsValidEndpoint go telemetry.endpoint & IsValidCa telemetry.tls & IsValidClient telemetry.tls

  abbrev pub AreValidTelemetries : Spec → Type 0
  AreValidTelemetries spec =
      (enabled_by_default spec.gateway_enabled ≡ true → IsValidTelemetry spec.gateway_telemetry)
      & IsValidTelemetry spec.data_storage.telemetry
      & IsValidTelemetry spec.kubernaut_agent.telemetry

client_iff :
    (tls : TelemetryTls)
    → (presents_client tls ≡ true) ↔ (IsPresent tls.cert_file ⊎ IsPresent tls.key_file)
client_iff tls = or_true (differs_not tls.cert_file "") (differs_not tls.key_file "")

in_field_iff :
    (path : String) (o : Option Error) {P : Type 0} → (o ≡ none) ↔ P → (in_field path o ≡ []) ↔ P
in_field_iff path none p = (λ h. p.0 refl, λ h. refl)
in_field_iff path (some e) p = (λ h. cc, λ h. absurd (let x : some e ≡ none = p.1 h in cc))

module _ (go : Go) (base : String) where
  telemetry_ca_iff :
      (tls : TelemetryTls) → (validate_telemetry_ca go base tls ≡ []) ↔ IsValidCa go tls
  unfolding validate_telemetry_ca
  telemetry_ca_iff tls =
      report_iff _
        (and_false (differs_not tls.ca_file "") (is_false (is_some tls.ca_cert_secret_ref)))
      ⊗ report_iff _
          (and_false (differs_not tls.ca_file "") (flip_false (is_true (go.is_abs tls.ca_file))))
      ⊗ optional_iff tls.ca_cert_secret_ref (λ ref.
        report_iff _ (differs ref.name "")
        ⊗ report_iff _ (
            and_false (differs_not ref.key "") (
              or_false (same_not (go.base ref.key) ref.key)
                (is_false (go.contains_any ref.key "\\\\/")))))

  client_paths_iff :
      (tls : TelemetryTls)
      → (validate_telemetry_client_paths go base tls ≡ []) ↔ HasClientPaths go tls
  unfolding validate_telemetry_client_paths
  client_paths_iff tls =
      report_iff _ (flip_false (is_true (go.is_abs tls.cert_file)))
      ⊗ report_iff _ (flip_false (is_true (go.is_abs tls.key_file)))
      ⊗ report_iff _ (differs (go.clean tls.cert_file) (go.clean tls.key_file))

  secret_paths_iff :
      (tls : TelemetryTls)
      → (validate_telemetry_secret_client_paths go base tls ≡ []) ↔ HasSecretPaths go tls
  unfolding validate_telemetry_secret_client_paths
  secret_paths_iff tls =
      report_iff _ (same_not (go.dir tls.cert_file) (go.dir tls.key_file))
      ⊗ report_iff _ (same_not (go.dir (go.clean tls.cert_file)) telemetry_mount_dir)
      ⊗ report_iff _ (differs (go.base tls.cert_file) (go.base tls.key_file))
      ⊗ report_iff _ (
          and_false (is_true (is_some tls.ca_cert_secret_ref)) (
            or_false (differs (go.clean tls.cert_file) telemetry_ca_file)
              (differs (go.clean tls.key_file) telemetry_ca_file)))

  telemetry_client_iff :
      (tls : TelemetryTls) → (validate_telemetry_client go base tls ≡ []) ↔ IsValidClient go tls
  unfolding validate_telemetry_client
  telemetry_client_iff tls =
      report_iff _
        (and_false (client_iff tls) (or_false (differs tls.cert_file "") (differs tls.key_file "")))
      ⊗ report_iff _
          (and_false (differs_not tls.tls_client_secret_ref "") (flip_false (client_iff tls)))
      ⊗ unless_iff (flip_false (client_iff tls)) (
          client_paths_iff tls
          ⊗ only_iff (differs_not tls.tls_client_secret_ref "") (secret_paths_iff tls))

  telemetry_spec_iff :
      (telemetry : TelemetrySpec)
      → (validate_telemetry_spec go base telemetry ≡ []) ↔ IsValidTelemetry go telemetry
  unfolding validate_telemetry_spec
  telemetry_spec_iff telemetry =
      in_field_iff _ _ (telemetry_endpoint_iff go telemetry.endpoint)
      ⊗ telemetry_ca_iff telemetry.tls
      ⊗ telemetry_client_iff telemetry.tls

-- validateTelemetry has no complaint exactly if the telemetry of the data storage, that of the agent
-- and, where the gateway is enabled, that of the gateway each name an endpoint that is accepted, one
-- authority at most, and the two files of a client both or neither, with absolute paths that differ
-- and, where a Secret holds them, that lie in the directory of the mount beside the authority's file.
pub telemetry_iff :
    (go : Go) (spec : Spec) → (validate_telemetry go spec ≡ []) ↔ AreValidTelemetries go spec
unfolding validate_telemetry
telemetry_iff go spec =
    only_iff (is_true _) (telemetry_spec_iff go _ spec.gateway_telemetry)
    ⊗ telemetry_spec_iff go _ spec.data_storage.telemetry
    ⊗ telemetry_spec_iff go _ spec.kubernaut_agent.telemetry
