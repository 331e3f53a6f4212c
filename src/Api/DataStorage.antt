-- ===== src/Api/DataStorage.antt =====
-- The spec of the data storage (api/v1alpha2/kubernaut_types.go).
use kubernaut_operator.Base.{ℤ, String, Option}
use kubernaut_operator.Api.Telemetry.{TelemetrySpec}

-- DataStorageAuditHashKeySpec
pub record HashKeySpec : Type 0 where
  pub existing_secret : String
  pub secret_key : String

-- RetentionSpec
pub record RetentionSpec : Type 0 where
  pub interval : String
  pub batch_size : Option ℤ
  pub default_days : Option ℤ

-- DataStorageAuditSpec
pub record AuditSpec : Type 0 where
  pub retention : Option RetentionSpec
  pub hash_key : Option HashKeySpec

-- DataStorageRateLimitSpec
pub record RateLimitSpec : Type 0 where
  pub requests_per_second : Option ℤ
  pub burst : Option ℤ

-- DataStorageServerSpec
pub record ServerSpec : Type 0 where
  pub read_timeout : String
  pub write_timeout : String
  pub max_concurrent_requests : Option ℤ
  pub rate_limit : Option RateLimitSpec

-- DataStorageDatabaseSpec
pub record DatabaseSpec : Type 0 where
  pub max_open_conns : Option ℤ
  pub max_idle_conns : Option ℤ
  pub conn_max_lifetime : String
  pub conn_max_idle_time : String

-- DataStorageRedisSpec
pub record RedisSpec : Type 0 where
  pub dlq_max_len : Option ℤ

-- DataStorageSpec
pub record DataStorageSpec : Type 0 where
  pub server : Option ServerSpec
  pub database : Option DatabaseSpec
  pub redis : Option RedisSpec
  pub audit : Option AuditSpec
  pub endpoint_propagation_delay : String
  pub telemetry : TelemetrySpec
