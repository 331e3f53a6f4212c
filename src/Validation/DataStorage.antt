-- ===== src/Validation/DataStorage.antt =====
-- The section of the data storage (validateDataStorage and what it calls, in
-- internal/resources/validation.go).
use kubernaut_operator.Base.{
  ℤ, ℕ, at_least, at_most, IsAtLeast, IsAtMost, at_least_iff, at_most_iff, String, ◌≡◌, ◌↔◌, not,
  Option, none, some, List, [], ◌∷◌, ◌==◌,
}
use kubernaut_operator.Api.DataStorage.{
  RetentionSpec, AuditSpec, ServerSpec, DatabaseSpec, RedisSpec, DataStorageSpec,
}
use kubernaut_operator.Kube.Op.{Error}
use kubernaut_operator.Validation.Checks.{
  IfSet, Parses, ◌&◌, ◌+++◌, issue, report, unless, when_given, Given,
}
use kubernaut_operator.Validation.Accept.{unless_iff, differs, report_iff, ◌⊗◌, optional_iff}
use kubernaut_operator.Validation.Go.{Go}

-- validateNonNegativeInt, validatePositiveInt, validateMaximumInt
unfoldable pub validate_non_negative_int : String → Option ℤ → List Error
validate_non_negative_int path value =
    when_given value λ z. report (not (at_least 0 z)) (issue path "must be non-negative")

unfoldable pub validate_positive_int : String → Option ℤ → List Error
validate_positive_int path value =
    when_given value λ z. report (not (at_least 1 z)) (issue path "must be positive")

unfoldable pub validate_maximum_int : String → Option ℤ → ℕ → List Error
validate_maximum_int path value maximum =
    when_given value
      λ z. report (not (at_most maximum z)) (issue path "must be at most the maximum")

abbrev pub positive_parse : String → Option ℤ → List Error
positive_parse path none = issue path "invalid duration" ∷ []
positive_parse path (some d) = report (not (at_least 1 d)) (issue path "duration must be positive")

module _ (go : Go) where
  -- validatePositiveDuration
  unfoldable pub validate_positive_duration : String → String → List Error
  validate_positive_duration path value =
      unless (value == "") (positive_parse path (go.parse_duration value))

  -- validateDataStorageServer
  unfoldable pub validate_server : Option ServerSpec → List Error
  validate_server server = when_given server λ s.
      validate_positive_duration "spec.dataStorage.server.readTimeout" s.read_timeout
      +++ validate_positive_duration "spec.dataStorage.server.writeTimeout" s.write_timeout
      +++ validate_non_negative_int "spec.dataStorage.server.maxConcurrentRequests"
          s.max_concurrent_requests
      +++ when_given s.rate_limit λ limit.
        validate_non_negative_int "spec.dataStorage.server.rateLimit.requestsPerSecond"
          limit.requests_per_second
        +++ validate_non_negative_int "spec.dataStorage.server.rateLimit.burst" limit.burst

  -- validateDataStorageDatabase
  unfoldable pub validate_database : Option DatabaseSpec → List Error
  validate_database database = when_given database λ d.
      validate_positive_duration "spec.dataStorage.database.connMaxLifetime" d.conn_max_lifetime
      +++ validate_positive_duration "spec.dataStorage.database.connMaxIdleTime"
          d.conn_max_idle_time
      +++ validate_non_negative_int "spec.dataStorage.database.maxOpenConns" d.max_open_conns
      +++ validate_non_negative_int "spec.dataStorage.database.maxIdleConns" d.max_idle_conns

  -- validateDataStorageAudit
  unfoldable pub validate_audit : Option AuditSpec → List Error
  validate_audit audit = when_given audit λ a. when_given a.retention λ r.
      validate_positive_duration "spec.dataStorage.audit.retention.interval" r.interval
      +++ validate_positive_int "spec.dataStorage.audit.retention.batchSize" r.batch_size
      +++ validate_positive_int "spec.dataStorage.audit.retention.defaultDays" r.default_days
      +++ validate_maximum_int "spec.dataStorage.audit.retention.defaultDays" r.default_days 2555

-- validateDataStorageRedis
unfoldable pub validate_redis : Option RedisSpec → List Error
validate_redis redis =
    when_given redis λ r. validate_non_negative_int "spec.dataStorage.redis.dlqMaxLen" r.dlq_max_len

-- validateDataStorage
unfoldable pub validate_data_storage : Go → DataStorageSpec → List Error
validate_data_storage go ds =
    validate_positive_duration go "spec.dataStorage.endpointPropagationDelay"
      ds.endpoint_propagation_delay
    +++ validate_server go ds.server
    +++ validate_database go ds.database
    +++ validate_redis ds.redis
    +++ validate_audit go ds.audit

-- What the section has to satisfy: every duration that is set parses and is positive, no count is
-- negative, and the retention is between 1 and 2555 days.
module _ (go : Go) where
  -- of a text that is set
  abbrev pub IsPositiveDuration : String → Type 0
  IsPositiveDuration = IfSet λ value. Parses (IsAtLeast 1) (go.parse_duration value)

  abbrev pub IsValidServer : ServerSpec → Type 0
  IsValidServer s =
      IsPositiveDuration s.read_timeout
      & IsPositiveDuration s.write_timeout
      & Given (IsAtLeast 0) s.max_concurrent_requests
      & Given
          (λ limit. Given (IsAtLeast 0) limit.requests_per_second & Given (IsAtLeast 0) limit.burst)
          s.rate_limit

  abbrev pub IsValidDatabase : DatabaseSpec → Type 0
  IsValidDatabase d =
      IsPositiveDuration d.conn_max_lifetime
      & IsPositiveDuration d.conn_max_idle_time
      & Given (IsAtLeast 0) d.max_open_conns
      & Given (IsAtLeast 0) d.max_idle_conns

  abbrev pub IsValidRetention : RetentionSpec → Type 0
  IsValidRetention r =
      IsPositiveDuration r.interval
      & Given (IsAtLeast 1) r.batch_size
      & Given (IsAtLeast 1) r.default_days
      & Given (IsAtMost 2555) r.default_days

  abbrev pub IsValidDataStorage : DataStorageSpec → Type 0
  IsValidDataStorage ds =
      IsPositiveDuration ds.endpoint_propagation_delay
      & Given IsValidServer ds.server
      & Given IsValidDatabase ds.database
      & Given (λ r. Given (IsAtLeast 0) r.dlq_max_len) ds.redis
      & Given (λ a. Given IsValidRetention a.retention) ds.audit

non_negative_iff :
    (path : String) (value : Option ℤ)
    → (validate_non_negative_int path value ≡ []) ↔ Given (IsAtLeast 0) value
unfolding validate_non_negative_int
non_negative_iff path value = optional_iff value λ z. report_iff _ (at_least_iff 0 z)

positive_iff :
    (path : String) (value : Option ℤ)
    → (validate_positive_int path value ≡ []) ↔ Given (IsAtLeast 1) value
unfolding validate_positive_int
positive_iff path value = optional_iff value λ z. report_iff _ (at_least_iff 1 z)

maximum_iff :
    (path : String) (value : Option ℤ) (maximum : ℕ)
    → (validate_maximum_int path value maximum ≡ []) ↔ Given (IsAtMost maximum) value
unfolding validate_maximum_int
maximum_iff path value maximum = optional_iff value λ z. report_iff _ (at_most_iff maximum z)

parse_iff : (path : String) (o : Option ℤ) → (positive_parse path o ≡ []) ↔ Parses (IsAtLeast 1) o
parse_iff path none = (λ h. cc, λ p. absurd p)
parse_iff path (some d) = report_iff _ (at_least_iff 1 d)

module _ (go : Go) where
  duration_iff :
      (path value : String)
      → (validate_positive_duration go path value ≡ []) ↔ IsPositiveDuration go value
  unfolding validate_positive_duration
  duration_iff path value = unless_iff (differs value "") (parse_iff path (go.parse_duration value))

  server_iff :
      (server : Option ServerSpec)
      → (validate_server go server ≡ []) ↔ Given (IsValidServer go) server
  unfolding validate_server
  server_iff server = optional_iff server λ s.
      duration_iff _ s.read_timeout
      ⊗ duration_iff _ s.write_timeout
      ⊗ non_negative_iff _ s.max_concurrent_requests
      ⊗ optional_iff s.rate_limit
          (λ limit. non_negative_iff _ limit.requests_per_second ⊗ non_negative_iff _ limit.burst)

  database_iff :
      (database : Option DatabaseSpec)
      → (validate_database go database ≡ []) ↔ Given (IsValidDatabase go) database
  unfolding validate_database
  database_iff database = optional_iff database λ d.
      duration_iff _ d.conn_max_lifetime
      ⊗ duration_iff _ d.conn_max_idle_time
      ⊗ non_negative_iff _ d.max_open_conns
      ⊗ non_negative_iff _ d.max_idle_conns

  audit_iff :
      (audit : Option AuditSpec)
      → (validate_audit go audit ≡ []) ↔ Given (λ a. Given (IsValidRetention go) a.retention) audit
  unfolding validate_audit
  audit_iff audit = optional_iff audit λ a. optional_iff a.retention λ r.
      duration_iff _ r.interval
      ⊗ positive_iff _ r.batch_size
      ⊗ positive_iff _ r.default_days
      ⊗ maximum_iff _ r.default_days 2555

redis_iff :
    (redis : Option RedisSpec)
    → (validate_redis redis ≡ []) ↔ Given (λ r. Given (IsAtLeast 0) r.dlq_max_len) redis
unfolding validate_redis
redis_iff redis = optional_iff redis λ r. non_negative_iff _ r.dlq_max_len

-- validateDataStorage has no complaint exactly if every duration that is set parses to a positive
-- one, every count that is set is at least 0, the batch size is at least 1 and the days of the
-- retention are from 1 to 2555; a block that is left out is accepted.
pub data_storage_iff :
    (go : Go) (ds : DataStorageSpec) → (validate_data_storage go ds ≡ []) ↔ IsValidDataStorage go ds
unfolding validate_data_storage
data_storage_iff go ds =
    duration_iff go _ ds.endpoint_propagation_delay
    ⊗ server_iff go ds.server
    ⊗ database_iff go ds.database
    ⊗ redis_iff ds.redis
    ⊗ audit_iff go ds.audit
