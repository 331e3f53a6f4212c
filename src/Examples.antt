-- ===== src/Examples.antt =====
-- Concrete inputs, the theorems at those inputs, and tests of the definitions.
pub mod Cluster
pub mod Library
pub mod Spec
pub mod Samples
mod Ensure
mod Status
mod Content
mod Migration
mod AuditKey
mod Running
mod Singleton
mod Credentials
mod Validation
mod Policy
mod Precreated
mod Startup
mod Lifecycle
