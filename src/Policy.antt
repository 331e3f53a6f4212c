-- ===== src/Policy.antt =====
-- The network policies of a namespace (internal/policy): the ownership of a NetworkPolicy, the section
-- of the spec, the intent, and its objects.
pub mod Owner
pub mod Owned
pub mod Section
pub mod Bounds
pub mod Intent
pub mod Components
pub mod Render
pub mod Accepted
pub mod Apply
pub mod Guarded
pub mod Prune
pub mod Stale
pub mod Order
pub mod Reconcile
