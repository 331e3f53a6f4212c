-- ===== src/Api/Telemetry.antt =====
-- The spec of telemetry, of monitoring and of notification credentials
-- (api/v1alpha2/kubernaut_types.go).
use kubernaut_operator.Base.{String, Option}

-- CACertSecretRef, SecretKeyRef
pub record SecretKeyRef : Type 0 where
  pub name : String
  pub key : String

-- TelemetryTLSConfig
pub record TelemetryTls : Type 0 where
  pub ca_file : String
  pub ca_cert_secret_ref : Option SecretKeyRef
  pub cert_file : String
  pub key_file : String
  pub tls_client_secret_ref : String

-- TelemetrySpec
pub record TelemetrySpec : Type 0 where
  pub endpoint : String
  pub tls : TelemetryTls

-- MonitoringSpec: the two endpoints, and the reference of its TLS block
pub record MonitoringSpec : Type 0 where
  pub prometheus_url : String
  pub alert_manager_url : String
  pub ca_cert_secret_ref : Option SecretKeyRef

-- NotificationCredential
pub record NotificationCredential : Type 0 where
  pub name : String
  pub secret_ref : SecretKeyRef
