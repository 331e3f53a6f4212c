-- ===== src/Kube.antt =====
-- What the operator takes from Kubernetes and from the Go libraries: objects, errors, calls that
-- may fail, and the client of the API server as an interface with its documented laws.
pub mod Object
pub mod Op
pub mod Library
pub mod Client
