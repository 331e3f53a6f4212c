-- ===== src/Api.antt =====
-- The types of the spec (api/v1alpha2/kubernaut_types.go), with the fields that the modelled
-- operations read. A Go pointer is an option.
pub mod DataStorage
pub mod Llm
pub mod Frontend
pub mod Fleet
pub mod Telemetry
pub mod Network
