-- ===== src/Validation/Telemetry.antt =====
-- The telemetry of a component (validateTelemetrySpec, normalizeTelemetryEndpoint and what they call,
-- in internal/resources/validation.go).
pub mod Endpoint
pub mod Tls
use kubernaut_operator.Base.{
  ℤ, at_least, at_most, String, Bool, true, false, not, ◌&&◌, ◌||◌, Option, none, some, List, [],
  ◌∷◌, ◌==◌, if◌then◌else◌, is_some,
}
use kubernaut_operator.Api.Telemetry.{SecretKeyRef, TelemetryTls, TelemetrySpec}
use kubernaut_operator.Kubernaut.{Spec, is_gateway_enabled}
use kubernaut_operator.Kube.Op.{Error, message, wrapped, Result, ok, err}
use kubernaut_operator.Validation.Checks.{
  at, issue, report, only, unless, to_list, first, fails, when_given, ◌+++◌,
}
use kubernaut_operator.Validation.Digits.{all_ascii_digits}
use kubernaut_operator.Validation.Go.{Go, Url, Ip}

-- TelemetryMountDir, telemetryCAFile
abbrev pub telemetry_mount_dir : String
telemetry_mount_dir = "/etc/telemetry"

abbrev pub telemetry_ca_file : String
telemetry_ca_file = "/etc/telemetry/ca.crt"

-- The methods of net.IP that block an address.
abbrev pub is_blocked_ip : Ip → Bool
is_blocked_ip ip =
    ip.is_loopback || ip.is_unspecified || ip.is_link_local_unicast || ip.is_link_local_multicast
    || ip.is_multicast

abbrev pub blocks : Option Ip → Bool
blocks none = false
blocks (some ip) = is_blocked_ip ip

abbrev pub is_out_of_range : ℤ → Bool
is_out_of_range z = not (at_least 1 z) || not (at_most 65535 z)

-- The answer of validateTelemetryHostPort, and the endpoint behind it.
abbrev pub accepted : Option Error → String → Result String
accepted none endpoint = ok endpoint
accepted (some e) endpoint = err e

abbrev pub failure : Result String → Option Error
failure (ok endpoint) = none
failure (err e) = some e

-- `fmt.Errorf("%s.endpoint: %w", base, err)`
abbrev pub in_field : String → Option Error → List Error
in_field path none = []
in_field path (some e) = wrapped path e ∷ []

abbrev pub presents_client : TelemetryTls → Bool
presents_client tls = not (tls.cert_file == "") || not (tls.key_file == "")

module _ (go : Go) where
  -- telemetryEndpointHostBlocked
  unfoldable pub is_host_blocked : String → Bool
  is_host_blocked host =
      go.equal_fold host "localhost"
      || go.equal_fold host "metadata.google.internal"
      || go.equal_fold host "instance-data"
      || blocks (go.parse_ip host)

  -- validateTelemetryPort; where Atoi fails, the first test has answered
  unfoldable pub validate_telemetry_port : String → Option Error
  validate_telemetry_port port =
      first (fails (go.atoi port) (λ z. not (all_ascii_digits port)))
        (message "must use a numeric TCP port; TLS is mandatory")
        (first (fails (go.atoi port) is_out_of_range)
          (message "must use a TCP port from 1 to 65535; TLS is mandatory") none)

  abbrev pub validate_split : Option (String × String) → Option Error
  validate_split none =
      some (message "must be a host:port or https://host:port value; TLS is mandatory")
  validate_split (some (host, port)) =
      first (host == "" || port == "")
        (message "must be a host:port or https://host:port value; TLS is mandatory")
        (first (is_host_blocked (go.trim_brackets host))
          (message "must not target a loopback or cloud metadata hostname")
          (validate_telemetry_port port))

  -- validateTelemetryHostPort
  unfoldable pub validate_telemetry_host_port : String → Option Error
  validate_telemetry_host_port endpoint = validate_split (go.split_host_port endpoint)

  -- The form of an https URI.
  abbrev pub rejects_uri : Url → Bool
  rejects_uri u =
      not (go.equal_fold u.scheme "https")
      || u.host == ""
      || u.has_user
      || not (u.raw_query == "")
      || not (u.fragment == "")
      || not (u.path == "") && not (u.path == "/")

  abbrev pub uri_address : Option Url → Result String
  uri_address none = err (message "must use an https:// URI or host:port value")
  uri_address (some u) =
      if rejects_uri u
      then err (message "must use an https:// URI or host:port value")
      else accepted (validate_telemetry_host_port u.host) u.host

  -- normalizeTelemetryEndpoint
  unfoldable pub normalize_telemetry_endpoint : String → Result String
  normalize_telemetry_endpoint endpoint =
      if endpoint == "" || endpoint == "stdout"
      then ok endpoint
      else if not (go.trim_space endpoint == endpoint) || go.contains_any endpoint " \t\n\r"
      then err (message "must be a host:port or https://host:port value without whitespace")
      else if go.contains_text endpoint "://"
      then uri_address (go.parse_url endpoint)
      else accepted (validate_telemetry_host_port endpoint) endpoint

  -- validateTelemetryEndpoint
  unfoldable pub validate_telemetry_endpoint : String → Option Error
  validate_telemetry_endpoint endpoint = failure (normalize_telemetry_endpoint endpoint)

  abbrev pub is_bad_key : String → Bool
  is_bad_key key = not (key == "") && (not (go.base key == key) || go.contains_any key "\\\\/")

  -- validateTelemetryCA
  unfoldable pub validate_telemetry_ca : String → TelemetryTls → List Error
  validate_telemetry_ca base tls =
      report (not (tls.ca_file == "") && is_some tls.ca_cert_secret_ref)
        (issue (at base ".tls.caFile") "and caCertSecretRef are mutually exclusive")
      +++ report (not (tls.ca_file == "") && not (go.is_abs tls.ca_file))
          (issue (at base ".tls.caFile") "must be an absolute path")
      +++ when_given tls.ca_cert_secret_ref (λ ref.
        report (ref.name == "") (issue (at base ".tls.caCertSecretRef.name") "must not be empty")
        +++ report (is_bad_key ref.key) (
            issue (at base ".tls.caCertSecretRef.key")
              "must be a Secret key name without path separators"))

  -- validateTelemetryClientPaths
  unfoldable pub validate_telemetry_client_paths : String → TelemetryTls → List Error
  validate_telemetry_client_paths base tls =
      report (not (go.is_abs tls.cert_file))
        (issue (at base ".tls.certFile") "must be an absolute path")
      +++ report (not (go.is_abs tls.key_file))
          (issue (at base ".tls.keyFile") "must be an absolute path")
      +++ report (go.clean tls.cert_file == go.clean tls.key_file)
          (issue (at base ".tls.certFile") "and keyFile must be different paths")

  -- validateTelemetrySecretClientPaths
  unfoldable pub validate_telemetry_secret_client_paths : String → TelemetryTls → List Error
  validate_telemetry_secret_client_paths base tls =
      report (not (go.dir tls.cert_file == go.dir tls.key_file))
        (issue (at base ".tls.certFile") "and keyFile must use the same directory")
      +++ report (not (go.dir (go.clean tls.cert_file) == telemetry_mount_dir))
          (issue (at base ".tls.certFile") "must be mounted below /etc/telemetry")
      +++ report (go.base tls.cert_file == go.base tls.key_file)
          (issue (at base ".tls.certFile") "and keyFile must have different filenames")
      +++ report
          (is_some tls.ca_cert_secret_ref
            && (go.clean tls.cert_file == telemetry_ca_file
                || go.clean tls.key_file == telemetry_ca_file))
          (issue (at base ".tls") "client material must not overwrite the Secret-backed CA path")

  -- validateTelemetryClient
  unfoldable pub validate_telemetry_client : String → TelemetryTls → List Error
  validate_telemetry_client base tls =
      report (presents_client tls && (tls.cert_file == "" || tls.key_file == ""))
        (issue (at base ".tls.certFile") "and keyFile must be set together")
      +++ report (not (tls.tls_client_secret_ref == "") && not (presents_client tls))
          (issue (at base ".tls.tlsClientSecretRef") "requires both certFile and keyFile")
      +++ unless (not (presents_client tls)) (
          validate_telemetry_client_paths base tls
          +++ only (not (tls.tls_client_secret_ref == ""))
              (validate_telemetry_secret_client_paths base tls))

  -- validateTelemetrySpec
  unfoldable pub validate_telemetry_spec : String → TelemetrySpec → List Error
  validate_telemetry_spec base telemetry =
      in_field (at base ".endpoint") (validate_telemetry_endpoint telemetry.endpoint)
      +++ validate_telemetry_ca base telemetry.tls
      +++ validate_telemetry_client base telemetry.tls

  -- validateTelemetry
  unfoldable pub validate_telemetry : Spec → List Error
  validate_telemetry spec =
      only (is_gateway_enabled spec)
        (validate_telemetry_spec "spec.gateway.config.telemetry" spec.gateway_telemetry)
      +++ validate_telemetry_spec "spec.dataStorage.telemetry" spec.data_storage.telemetry
      +++ validate_telemetry_spec "spec.kubernautAgent.telemetry" spec.kubernaut_agent.telemetry
