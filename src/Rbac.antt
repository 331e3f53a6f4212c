-- ===== src/Rbac.antt =====
-- The RBAC objects of an instance: their names (clusterRoleName and the name functions of
-- internal/resources/rbac.go) and the removal of those that are no longer desired (pruneUndesired,
-- pruneUndesiredNamespaced and the prune functions of internal/controller/kubernaut_controller.go).
pub mod Orphans
pub mod Pruned
use Prim.Native.String
use kubernaut_operator.Base.{
  String, Bool, true, false, ◌&&◌, ◌||◌, List, [], ◌∷◌, ◌++◌, ◌==◌, if◌then◌else◌,
}
use kubernaut_operator.Kube.Object.{Object, network_policy, other}
use kubernaut_operator.Kube.Op.{
  Error, wrapped, Result, ok, err, Op, pure, gets, attempt, ◌>>=◌, ◌>>◌,
}
use kubernaut_operator.Kube.Library.{Library}
use kubernaut_operator.Kube.Client.{Client, Selector}
use kubernaut_operator.Kubernaut.{Kubernaut}
use kubernaut_operator.Status.{State, call}
use kubernaut_operator.Ensure.{delete_if_exists}
use kubernaut_operator.Policy.Owner.{instance_label}

-- clusterRoleName
abbrev pub cluster_role_name : Kubernaut → String → String
cluster_role_name kn base = String.◌++◌ kn.namespace (String.◌++◌ "-" base)

-- LabelAdditionalComponentRBAC, LabelCoreClusterRBAC, LabelMCPGatewayNamespaceRBAC
abbrev pub additional_component_label : String
additional_component_label = "kubernaut.ai/additional-component-rbac"

abbrev pub core_cluster_label : String
core_cluster_label = "kubernaut.ai/core-cluster-rbac"

abbrev pub mcp_gateway_label : String
mcp_gateway_label = "kubernaut.ai/mcp-gateway-namespace-rbac"

-- An object with its type and its name alone, for a deletion.
abbrev pub named_object : String → String → String → Object
named_object kind namespace name = record {
  kind = kind;
  namespace = namespace;
  name = name;
  uid = "";
  resource_version = 0;
  terminating = false;
  finalizers = [];
  labels = [];
  annotations = [];
  owner_refs = [];
  body = other "";
}

-- `client.MatchingLabels` of one mark, for this instance, in all namespaces
abbrev pub marked : String → String → Kubernaut → Selector
marked kind label kn = record {
  kind = kind;
  namespace = "";
  labels = (label, "true") ∷ (instance_label, kn.name) ∷ [];
}

-- namesOf and the lookup in it
unfoldable pub is_desired_name : List Object → Object → Bool
is_desired_name [] o = false
is_desired_name (d ∷ desired) o = d.name == o.name || is_desired_name desired o

-- namespacedKeysOf and the lookup in it
unfoldable pub is_desired_key : List Object → Object → Bool
is_desired_key [] o = false
is_desired_key (d ∷ desired) o =
    d.namespace == o.namespace && d.name == o.name || is_desired_key desired o

-- `if err := ...; err != nil { errs = append(errs, fmt.Errorf("text: %w", err)) }`
abbrev pub collect : String → Result (Unit {0}) → List Error
collect t (ok u) = []
collect t (err e) = wrapped t e ∷ []

-- A part of a cleanup: it goes on after an error, and returns the errors that it met.
abbrev pub Task : Client → Type 0
Task c = Op (State c) (List Error)

module _ {c : Client} where
  abbrev pub no_task : Task c
  no_task = pure []

  -- `errs = append(errs, rest()...)`
  unfoldable pub both_tasks : Task c → Task c → Task c
  both_tasks first rest = do errs ← first; more ← rest; pure (errs ++ more)

module _ (lib : Library) {c : Client} where
  -- deleteIfExists, with its error collected
  unfoldable pub delete_task : String → Object → Task c
  delete_task t o = do r ← attempt (delete_if_exists lib o); pure (collect t r)

  -- A loop of deletions
  unfoldable pub delete_each : String → List Object → Task c
  delete_each t [] = no_task
  delete_each t (o ∷ os) = both_tasks (delete_task t o) (delete_each t os)

  -- pruneUndesired and pruneUndesiredNamespaced, by the test for a desired object
  unfoldable pub prune_undesired : String → (Object → Bool) → List Object → Task c
  prune_undesired t is_desired [] = no_task
  prune_undesired t is_desired (o ∷ os) =
      both_tasks (if is_desired o then no_task else delete_task t o)
        (prune_undesired t is_desired os)

  abbrev pub prune_shown : String → (Object → Bool) → Task c → Result (List Object) → Task c
  prune_shown t is_desired rest (ok live) = both_tasks (prune_undesired t is_desired live) rest
  prune_shown t is_desired rest (err e) = pure (wrapped "listing for pruning" e ∷ [])

  -- One list and the pruning of what it shows; if the list fails, nothing follows.
  unfoldable pub prune_kind : String → String → (Object → Bool) → Task c → Task c
  prune_kind kind label is_desired rest = do
    kn ← gets (λ s. s.cr)
    live ← attempt (call (c.list (marked kind label kn)))
    prune_shown kind is_desired rest live

  -- pruneOrphanedCoreClusterRBAC
  unfoldable pub prune_orphaned_core : (roles bindings : List Object) → Task c
  prune_orphaned_core roles bindings =
      prune_kind "ClusterRole" core_cluster_label (is_desired_name roles)
        (prune_kind "ClusterRoleBinding" core_cluster_label (is_desired_name bindings) no_task)

  -- pruneOrphanedMCPGatewayNamespaceRBAC
  unfoldable pub prune_orphaned_mcp_gateway : (roles bindings : List Object) → Task c
  prune_orphaned_mcp_gateway roles bindings =
      prune_kind "Role" mcp_gateway_label (is_desired_key roles)
        (prune_kind "RoleBinding" mcp_gateway_label (is_desired_key bindings) no_task)

  -- pruneOrphanedAdditionalComponentRBAC
  unfoldable pub prune_orphaned_additional : (bindings : List Object) → Task c
  prune_orphaned_additional bindings =
      prune_kind "ClusterRoleBinding" additional_component_label (is_desired_name bindings) no_task
