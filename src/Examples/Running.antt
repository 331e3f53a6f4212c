-- ===== src/Examples/Running.antt =====
-- The readiness of the services on the concrete cluster.
use kubernaut_operator.Base.{contains, ◌≡◌, refl, some, [], ◌∷◌}
use kubernaut_operator.Kube.Object.{Object, deployment}
use kubernaut_operator.Kube.Op.{ok, pure}
use kubernaut_operator.Kubernaut.{Condition, text}
use kubernaut_operator.Status.{State, requeue_running, patch_status}
use kubernaut_operator.Running.{
  phase_running, read_services, read_service, deployment_name, service_status, finish_running,
  warn_conditions,
}
use kubernaut_operator.Running.Ready.{IsReported, phase_running_lem}
use kubernaut_operator.Examples.Cluster.{cluster_client, live, read, find_latest, same_key}
use kubernaut_operator.Examples.Library.{library, find_by_type}
use kubernaut_operator.Examples.Samples.{
  sample, settings, empty_cluster, start, cluster-IsStatusServer,
}

abbrev condition : Condition
condition = record {
  type = "NetworkPolicyReady";
  status = "True";
  reason = "";
  message = text "";
  observed_generation = 1;
}

abbrev gateway : Object
gateway = record settings { kind = "Deployment"; name = "gateway"; body = deployment (some 2) 2 }

abbrev ready_start : State cluster_client
ready_start = record (start (record empty_cluster { log = live gateway ∷ [] })) {
  cr = record sample { status = record sample.status { conditions = condition ∷ [] } };
}

gateway_runs :
    (phase_running library ("gateway" ∷ []) (pure condition) (pure condition) ready_start).0
    ≡ ok requeue_running
unfolding phase_running read_services read_service deployment_name service_status finish_running
    warn_conditions read find_latest same_key find_by_type patch_status contains
gateway_runs = refl

phase_running_lem_example :
    IsReported library cluster-IsStatusServer
      ("gateway" ∷ [])
      ready_start
      requeue_running
      (phase_running library
        ("gateway" ∷ [])
        (pure condition)
        (pure condition)
        ready_start).1.cr.status
phase_running_lem_example =
    phase_running_lem library cluster-IsStatusServer ("gateway" ∷ []) (pure condition)
      (pure condition) ready_start requeue_running gateway_runs
