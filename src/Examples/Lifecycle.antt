-- ===== src/Examples/Lifecycle.antt =====
-- The life of an instance on the concrete cluster.
use kubernaut_operator.Base.{◌≡◌, refl, ◌⊎◌, true, List, [], ◌∷◌, length}
use kubernaut_operator.Base.Map.{get, lookup, copy, insert}
use kubernaut_operator.Kube.Object.{Object, ServiceSpec}
use kubernaut_operator.Kube.Op.{Result, ok, pure}
use kubernaut_operator.Kube.Client.{Write}
use kubernaut_operator.Kubernaut.{Kubernaut}
use kubernaut_operator.Ownership.{
  stamp_ownership, resource_ownership_error, ownership_marker_matches, marker_label, marker_loop,
  resource_owner_matches, owner_refs_match, sole_owner_matches, common_labels,
}
use kubernaut_operator.Status.{State, Requeue, no_requeue, requeue_running}
use kubernaut_operator.Ensure.{delete_if_exists, delete_if_owned}
use kubernaut_operator.Ensure.Writes.{Extends}
use kubernaut_operator.Policy.Reconcile.{rendered_policies, reconcile_network_policies}
use kubernaut_operator.Policy.Order.{Reconciled, network_policies_order}
use kubernaut_operator.Rbac.{
  prune_kind, prune_undesired, both_tasks, delete_task, named_object, is_desired_name,
  is_desired_key, prune_orphaned_core, prune_orphaned_mcp_gateway, prune_orphaned_additional,
}
use kubernaut_operator.Rbac.Pruned.{Orphan, RoleOrBinding, IsUndesired, pruning_safe}
use kubernaut_operator.Lifecycle.{Phases, run_of, reconcile}
use kubernaut_operator.Lifecycle.Guarded.{Ran, reconcile_guarded}
use kubernaut_operator.Lifecycle.Order.{StopsEarly, IsReadyToDeploy, modelled_phases, deploy_gate}
use kubernaut_operator.Examples.Cluster.{
  list_from, find_latest, read, remove, append, same_key, Cluster, live, cluster_client,
}
use kubernaut_operator.Examples.Cluster.Laws.{cluster-IsApiServer}
use kubernaut_operator.Examples.Library.{library, library-IsFinalizerSet, texts}
use kubernaut_operator.Examples.Samples.{sample, empty_cluster, start, cluster-IsStatusServer}
use kubernaut_operator.Examples.Policy.{names, encode}
use kubernaut_operator.Examples.Migration.{build}

abbrev no_services : Kubernaut → List ServiceSpec
no_services kn = []

network_policies_order_example :
    Reconciled library
      (λ a b. true)
      (λ a b. true)
      (rendered_policies names encode no_services sample)
      (start empty_cluster)
      (reconcile_network_policies library
        (λ a b. true)
        (λ a b. true)
        names
        encode
        no_services
        (start empty_cluster))
network_policies_order_example =
    network_policies_order library (λ a b. true) (λ a b. true) cluster-IsApiServer names encode
      no_services (start empty_cluster)

-- A role of the instance that its spec asked for once.
abbrev old_role : Object
old_role = record (stamp_ownership sample (named_object "ClusterRole" "" "prod-old")) {
  labels =
      ("kubernaut.ai/core-cluster-rbac", "true")
      ∷ ("app.kubernetes.io/instance", "kubernaut")
      ∷ ("app.kubernetes.io/managed-by", "kubernaut-operator")
      ∷ ("app.kubernetes.io/part-of", "kubernaut")
      ∷ [];
}

abbrev wanted_role : Object
wanted_role = named_object "ClusterRole" "" "prod-new"

abbrev role_cluster : Cluster
role_cluster = record empty_cluster { log = live old_role ∷ [] }

pruning_safe_example :
    Extends
      (Orphan library
        (RoleOrBinding "ClusterRole" "ClusterRoleBinding" is_desired_name (wanted_role ∷ []) [])
        sample)
      []
      (prune_orphaned_core library (wanted_role ∷ []) [] (start role_cluster)).1.world.writes
    × Extends
        (Orphan library
          (RoleOrBinding "Role" "RoleBinding" is_desired_key (wanted_role ∷ []) [])
          sample)
        []
        (prune_orphaned_mcp_gateway library
          (wanted_role ∷ [])
          []
          (start role_cluster)).1.world.writes
    × Extends
        (Orphan library (IsUndesired "ClusterRoleBinding" (is_desired_name [])) sample)
        []
        (prune_orphaned_additional library [] (start role_cluster)).1.world.writes
pruning_safe_example =
    pruning_safe library cluster-IsApiServer (wanted_role ∷ []) [] (start role_cluster)

-- Phases that do nothing.
abbrev quiet : Phases cluster_client
quiet = record {
  validate = pure no_requeue;
  policies = pure tt;
  migrate = pure no_requeue;
  deploy = pure tt;
  run = pure requeue_running;
}

-- The instance on its way out.
abbrev leaving_cluster : Cluster
leaving_cluster = record role_cluster { crs = record sample { terminating = true } ∷ [] }

reconcile_guarded_example :
    ((reconcile library quiet "prod" "kubernaut" leaving_cluster).world.writes ≡ [])
    ⊎ ((kn : Kubernaut) × (out : Result Requeue × State cluster_client)
        × ((cluster_client.get_kubernaut "prod" "kubernaut" leaving_cluster).0 ≡ ok kn)
        × (reconcile library quiet "prod" "kubernaut" leaving_cluster ≡ run_of out)
        × ◌≡◌ {A = List Write} [] []
        × Ran library quiet (record { cr = kn; world = leaving_cluster; events = [] }) out)
reconcile_guarded_example =
    reconcile_guarded library library-IsFinalizerSet cluster-IsApiServer quiet "prod" "kubernaut"
      leaving_cluster

deploy_gate_example :
    StopsEarly
      (modelled_phases library texts build
        (λ a b. true)
        (λ a b. true)
        names
        encode
        no_services
        (pure no_requeue)
        (pure tt)
        (pure tt)
        (pure requeue_running))
      (start empty_cluster)
    ⊎ IsReadyToDeploy library texts build
        (λ a b. true)
        (λ a b. true)
        names
        encode
        no_services
        (pure no_requeue)
        (pure tt)
        (start empty_cluster)
deploy_gate_example =
    deploy_gate library texts build (λ a b. true) (λ a b. true) names encode no_services
      cluster-IsApiServer cluster-IsStatusServer (pure no_requeue) (pure tt) (pure tt)
      (pure requeue_running) (start empty_cluster)

-- A role of the instance that is no longer desired goes.
orphan_goes :
    length (prune_orphaned_core library (wanted_role ∷ []) [] (start role_cluster)).1.world.writes
    ≡ 1
unfolding prune_orphaned_core prune_kind prune_undesired both_tasks delete_task delete_if_exists
    delete_if_owned resource_ownership_error ownership_marker_matches marker_label marker_loop
    resource_owner_matches owner_refs_match sole_owner_matches stamp_ownership common_labels copy
    insert lookup get is_desired_name list_from find_latest read remove append same_key
orphan_goes = refl
