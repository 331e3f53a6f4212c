-- ===== src/Validation.antt =====
-- The validation of the custom resource (internal/resources/validation.go), by sections of the spec.
pub mod Checks
pub mod Accept
pub mod Go
pub mod DataStorage
pub mod Seen
pub mod Urls
pub mod Profiles
pub mod Observability
pub mod Digits
pub mod Telemetry
pub mod Frontend
pub mod Agent
pub mod Console
pub mod Fleet
pub mod Whole
