-- ===== src/Precreated.antt =====
-- The objects that an administrator has to create before the operator goes on
-- (precreatedReferenceCollector, the append functions and the validations of
-- internal/controller/kubernaut_controller.go).
pub mod Collector
pub mod References
pub mod Keys
pub mod Values
pub mod Accepted
pub mod Steps
pub mod Collected
pub mod Phase
