-- ===== src/Cleanup.antt =====
-- The cleanup of an instance that is being deleted (deleteClusterScopedResources and the delete
-- functions of internal/controller/kubernaut_controller.go; the names of internal/resources/rbac.go,
-- webhooks.go, serviceaccounts.go and common.go). For a deletion an object is its type, its
-- namespace and its name.
pub mod Removed
use Prim.Native.String.{◌++◌}
use kubernaut_operator.Base.{String, Bool, ◌||◌, List, [], ◌∷◌, ◌==◌, if◌then◌else◌}
use kubernaut_operator.Kube.Object.{Object}
use kubernaut_operator.Kube.Op.{
  Error, wrapped, Result, ok, err, join, rewrap, Op, pure, gets, attempt, lift, is_not_found,
  is_no_match, ◌>>=◌,
}
use kubernaut_operator.Kube.Library.{Library}
use kubernaut_operator.Kube.Client.{Client}
use kubernaut_operator.Kubernaut.{Kubernaut}
use kubernaut_operator.Status.{State, call}
use kubernaut_operator.Policy.Prune.{policy_selector, delete_observed_policy}
use kubernaut_operator.Rbac.{
  Task, no_task, both_tasks, collect, cluster_role_name, named_object, delete_task, delete_each,
  prune_orphaned_core, prune_orphaned_mcp_gateway, prune_orphaned_additional,
}

-- ResolveWorkflowNamespace
abbrev pub workflow_namespace_of : Kubernaut → String
workflow_namespace_of kn =
    if kn.spec.workflow_namespace == "" then "kubernaut-workflows" else kn.spec.workflow_namespace

abbrev pub role_named : Kubernaut → String → Object
role_named kn base = named_object "ClusterRole" "" (cluster_role_name kn base)

abbrev pub binding_named : Kubernaut → String → Object
binding_named kn base = named_object "ClusterRoleBinding" "" (cluster_role_name kn base)

-- MonitoringCRBNames
abbrev pub monitoring_bindings : Kubernaut → List Object
monitoring_bindings kn =
    binding_named kn "effectivenessmonitor-alertmanager-view-binding"
    ∷ binding_named kn "effectivenessmonitor-monitoring-view"
    ∷ binding_named kn "kubernaut-agent-monitoring-view"
    ∷ binding_named kn "kubernaut-agent-alertmanager-view-binding"
    ∷ binding_named kn "alertmanager-gateway-signal-source"
    ∷ binding_named kn "apifrontend-monitoring-view"
    ∷ []

-- MonitoringClusterRoleNames
abbrev pub monitoring_roles : Kubernaut → List Object
monitoring_roles kn = role_named kn "alertmanager-view" ∷ role_named kn "gateway-signal-source" ∷ []

-- ToolClusterRoleNames, with the names of toolPersonas
abbrev pub tool_roles : Kubernaut → List Object
tool_roles kn =
    role_named kn "tool-sre"
    ∷ role_named kn "tool-ai-orchestrator"
    ∷ role_named kn "tool-cicd"
    ∷ role_named kn "tool-observability"
    ∷ role_named kn "tool-l3-audit"
    ∷ role_named kn "tool-remediation-approver"
    ∷ []

abbrev pub bindings_of : List String → List Object
bindings_of [] = []
bindings_of (name ∷ names) = named_object "ClusterRoleBinding" "" name ∷ bindings_of names

-- ConsoleAccessCRBName
abbrev pub console_binding : Kubernaut → Object
console_binding kn = binding_named kn "console-access-binding"

-- The names of WorkflowNamespaceRBAC
abbrev pub workflow_roles : Kubernaut → List Object
workflow_roles kn =
    let ns = workflow_namespace_of kn in
    named_object "Role" ns "datastorage-dep-reader"
    ∷ named_object "Role" ns "workflowexecution-dep-reader"
    ∷ named_object "Role" ns "workflow-runner-ns-writer"
    ∷ []

abbrev pub workflow_bindings : Kubernaut → List Object
workflow_bindings kn =
    let ns = workflow_namespace_of kn in
    named_object "RoleBinding" ns "datastorage-dep-reader-binding"
    ∷ named_object "RoleBinding" ns "workflowexecution-dep-reader-binding"
    ∷ named_object "RoleBinding" ns "workflow-runner-ns-writer-binding"
    ∷ []

-- WorkflowRunnerServiceAccount
abbrev pub workflow_runner : Kubernaut → Object
workflow_runner kn =
    named_object "ServiceAccount" (workflow_namespace_of kn) "kubernaut-workflow-runner"

module _ (c : Client) where
  unfoldable pub delete_policy : String → Object → Task c
  delete_policy instance o = do
    r ← attempt (call (delete_observed_policy c o instance))
    pure (collect "deleting NetworkPolicy" r)

  -- The loop of deleteNetworkPolicies
  unfoldable pub delete_policies : String → List Object → Task c
  delete_policies instance [] = no_task
  delete_policies instance (o ∷ os) =
      both_tasks (delete_policy instance o) (delete_policies instance os)

  abbrev pub delete_listed_policies : String → Result (List Object) → Task c
  delete_listed_policies instance (ok os) = delete_policies instance os
  delete_listed_policies instance (err e) =
      if is_not_found e || is_no_match e
      then no_task
      else pure (wrapped "listing NetworkPolicies" e ∷ [])

  -- deleteNetworkPolicies
  unfoldable pub delete_network_policies : Task c
  delete_network_policies = do
    kn ← gets (λ s. s.cr)
    r ← attempt (call (c.list (policy_selector kn)))
    delete_listed_policies kn.name r

module _ (lib : Library) {c : Client} where
  -- deleteAnsibleClusterRBAC
  unfoldable pub delete_ansible_rbac : Kubernaut → Task c
  delete_ansible_rbac kn =
      both_tasks
        (delete_task lib "deleting AWX ClusterRole" (role_named kn "workflowexecution-awx"))
        (delete_task lib "deleting AWX CRB" (binding_named kn "workflowexecution-awx-binding"))

  -- deleteMonitoringClusterRBAC
  unfoldable pub delete_monitoring_rbac : Kubernaut → Task c
  delete_monitoring_rbac kn =
      both_tasks (delete_each lib "deleting monitoring CRB" (monitoring_bindings kn))
        (delete_each lib "deleting monitoring ClusterRole" (monitoring_roles kn))

  -- deleteAdditionalAgentAndToolRBAC
  unfoldable pub delete_additional_rbac : Kubernaut → Task c
  delete_additional_rbac kn = both_tasks (prune_orphaned_additional lib []) (
      both_tasks (delete_each lib "deleting tool ClusterRole" (tool_roles kn)) (
        both_tasks
          (delete_each lib "deleting tool CRB" (bindings_of kn.status.bound_tool_role_bindings))
          (delete_task lib "deleting console-access CRB" (console_binding kn))))

  -- deleteRBACResources, with deleteCoreClusterRBAC and deleteMCPGatewayNamespaceRBAC
  unfoldable pub delete_rbac_resources : Kubernaut → Task c
  delete_rbac_resources kn = both_tasks (prune_orphaned_core lib [] []) (
      both_tasks (delete_ansible_rbac kn) (
        both_tasks (delete_monitoring_rbac kn)
          (both_tasks (delete_additional_rbac kn) (prune_orphaned_mcp_gateway lib [] []))))

  -- deleteWebhookResources
  unfoldable pub delete_webhook_resources : Kubernaut → Task c
  delete_webhook_resources kn =
      both_tasks
        (delete_task lib "deleting MutatingWebhookConfiguration" (
          named_object "MutatingWebhookConfiguration" "" (kn.namespace ++ "-authwebhook-mutating")))
        (delete_task lib "deleting ValidatingWebhookConfiguration" (
          named_object "ValidatingWebhookConfiguration" ""
            (kn.namespace ++ "-authwebhook-validating")))

  -- deleteWorkflowResources
  unfoldable pub delete_workflow_resources : Kubernaut → Task c
  delete_workflow_resources kn =
      both_tasks (delete_each lib "deleting wf role" (workflow_roles kn)) (
        both_tasks (delete_each lib "deleting wf rb" (workflow_bindings kn))
          (delete_task lib "deleting workflow runner SA" (workflow_runner kn)))

  -- The errors of deleteClusterScopedResources
  unfoldable pub cleanup_tasks : Kubernaut → Task c
  cleanup_tasks kn = both_tasks (delete_rbac_resources kn) (
      both_tasks (delete_webhook_resources kn)
        (both_tasks (delete_workflow_resources kn) (delete_network_policies c)))

  -- deleteClusterScopedResources
  unfoldable pub delete_cluster_scoped : Op (State c) (Unit {0})
  delete_cluster_scoped = do
    kn ← gets (λ s. s.cr)
    errs ← cleanup_tasks kn
    lift (rewrap "cluster-scoped cleanup" (join errs))
