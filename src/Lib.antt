-- ===== src/Lib.antt =====
-- The Kubernaut operator: a Kubernetes controller that reconciles the one custom resource of
-- kind Kubernaut of a cluster into the services of the Kubernaut platform.
--
-- The parts and the files that model them.
--   - Base: names of the libraries, Boolean tests (Base/Tests), Go maps as association lists
--     (Base/Map), lists over the native numbers (Base/Lists), integers (Base/Int), the order of
--     texts (Base/TextOrder).
--   - Kube: Kubernetes objects with the fields that the operator reads or writes (Kube/Object),
--     Go errors as values and operations on a state that may fail (Kube/Op), the functions of
--     Go libraries as a record of parameters (Kube/Library), and the API client as a record of
--     parameters (Kube/Client). The laws that hypotheses name (IsApiServer, IsDeepEqual,
--     IsConditionSet, IsStatusServer) are what the documentation of these libraries says;
--     Examples/Cluster and Examples/Library are instances.
--   - Kubernaut: the custom resource (api/v1alpha2/kubernaut_types.go).
--   - Ownership: who may write an object (internal/resources/ownership.go).
--     ResourceOwnershipError is resource_ownership_error, StampOwnership is stamp_ownership.
--     Ownership/Contract has the contract as a proposition, Ownership/Stamp the stamp.
--   - Hash: SpecHash and the metadata it leaves out (internal/resources/hash.go).
--   - Drift: contentDrifted, ownedServiceSpec and preserveServiceFields of
--     internal/controller/kubernaut_controller.go.
--   - Status: phases, conditions and status patches (setPhase, patchStatus,
--     setConditionAndRequeue of internal/controller/kubernaut_controller.go).
--   - Ensure: ensureResourceChanged, createIfNotFound, deleteIfExists and their helpers
--     (internal/controller/kubernaut_controller.go) with the ownership check of
--     internal/controller/ownership.go. Ensure/Writes says what a history of writes may
--     contain.
--   - Migration: the migration Job, its terminal states and the phase around it (phaseMigrate,
--     ensureMigrationJob, handleCompleteMigrationJob, handleFailedMigrationJob of
--     internal/controller/kubernaut_controller.go; postgresqlCredentialRevision of
--     internal/controller/datastorage_material.go). Migration/Ended is about when a Job has
--     ended, Migration/Gate and Migration/Phase about when the reconciliation goes on,
--     Migration/Completed about the status that is then left, Migration/Retention about a
--     failed Job.
--   - AuditKey: the audit HMAC key of the data storage and its state marker
--     (internal/resources/audit_hmac.go in AuditKey/Names and AuditKey/Material;
--     ensureDataStorageAuditHashKey and its helpers of
--     internal/controller/kubernaut_controller.go in AuditKey). AuditKey/Kept is about keys
--     that exist.
--   - Running: the readiness of the services and the phase that it decides (phaseRunning of
--     internal/controller/kubernaut_controller.go, DeploymentName of
--     internal/resources/common.go). Running/Read is about what is read of the Deployments,
--     Running/Ready about the phase.
--   - Singleton: one instance per cluster (internal/webhook/singleton_webhook.go,
--     authorizeSingleton of internal/controller/kubernaut_controller.go).
--   - Credentials: the Secrets of the database and of the cache
--     (internal/resources/credentials.go).
--   - Api: the sections of the spec (api/v1alpha2/kubernaut_types.go), with the fields that the
--     modelled operations read.
--   - Validation: ValidateKubernaut and ValidateFleet (internal/resources/validation.go).
--     Checks has the steps of a validation, Accept when they report nothing, Seen the loops
--     that keep names, Go the libraries that are called; a module per section follows, with
--     child modules for what the section has to satisfy, and Whole puts the sections together.
--   - Policy: the network policies (internal/policy): Owner and Owned for the ownership,
--     Section and Bounds for their section of the spec, Intent and Components for the intent,
--     Render and Accepted for the objects, Apply and Guarded for the writes
--     (ensureNetworkPolicy of internal/controller/kubernaut_controller.go).
--   - Active: the components that a spec asks for (internal/resources/common.go).
--   - Policy, the whole: Reconcile is reconcileNetworkPolicies, Prune is pruneNetworkPolicies
--     and deleteObservedNetworkPolicy; Stale and Order say what is removed, and when.
--   - Rbac: the pruning of RBAC objects (internal/controller/kubernaut_controller.go); Orphans
--     has the rule for tasks that only remove, Pruned what they remove.
--   - Cleanup: deleteClusterScopedResources and what it calls, in the order of the code;
--     Cleanup/Removed says what is removed.
--   - Lifecycle: Reconcile, reconcilePhases, reconcileDelete, runFinalizerCleanup.
--     Lifecycle/Released is about the finalizer, Guarded about what a run writes, Order about
--     what comes before the deployment.
--   - Precreated: the objects that an administrator creates
--     (internal/controller/kubernaut_controller.go): the collector (Precreated/Collector) and
--     the append functions (References). Keys has the checks of an object and of all of them,
--     Values and Accepted say which pass, Steps what every step of the collection keeps,
--     Collected what is collected, Phase when the validation goes on.
--   - Startup: phaseValidate, validateDatabaseInputs, handleSpecValidationFailure
--     (internal/controller/kubernaut_controller.go) and ValidateHostname
--     (internal/resources/common.go). Startup/Checks is about one check, Gate about all of
--     them; it is a phase that Lifecycle/Order may take for its first argument.
--   - Examples: a concrete cluster, concrete libraries, and the theorems at concrete inputs.
--
-- How the parts interact. A handler is a function from the state of one reconciliation
-- (Status.State: the custom resource that the Go code shares by pointer, the world behind the
-- client, the events emitted) to a result and the next state; the state comes back beside an
-- error, since what was written stays written. The client's calls pass the world through, so
-- another writer may change the cluster at any call. The client keeps a history of the
-- operator's accepted writes, about which the safety results speak.
--
-- No definition needs fuel: every loop of the modelled code is a recursion over a list.
--
-- Not modelled: log lines, metrics and the clock (timestamps of the status); the builders of
-- manifests, which only make values; the wiring of watches; the end of phaseValidate
-- (telemetry, fleet trust, monitoring and runtime TLS) and phaseDeploy as a whole, which are
-- arguments; the runtime TLS material.
pub mod Base
pub mod Kube
pub mod Active
pub mod Api
pub mod Kubernaut
pub mod Ownership
pub mod Hash
pub mod Drift
pub mod Status
pub mod Validation
pub mod Policy
pub mod Ensure
pub mod Rbac
pub mod Cleanup
pub mod Migration
pub mod Running
pub mod Singleton
pub mod Lifecycle
pub mod Startup
pub mod Precreated
pub mod Credentials
pub mod AuditKey
pub mod Examples
