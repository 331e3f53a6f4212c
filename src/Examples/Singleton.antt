-- ===== src/Examples/Singleton.antt =====
-- The singleton on the concrete cluster.
use kubernaut_operator.Base.{◌≡◌, ◌↔◌, refl, List, []}
use kubernaut_operator.Kube.Op.{ok}
use kubernaut_operator.Kubernaut.{Kubernaut, singleton_name}
use kubernaut_operator.Singleton.{allowed, handle, authorize_singleton, sole_verdict, is_sole}
use kubernaut_operator.Singleton.Unique.{IsSole, authorize_iff, handle_iff}
use kubernaut_operator.Examples.Cluster.{cluster_client}
use kubernaut_operator.Examples.Samples.{sample, empty_cluster}

authorize_iff_example : ((authorize_singleton cluster_client sample empty_cluster).0 ≡ ok tt) ↔ (
    (instances : List Kubernaut) × ((cluster_client.list_kubernauts empty_cluster).0 ≡ ok instances)
    × IsSole sample instances)
authorize_iff_example = authorize_iff cluster_client sample empty_cluster

sample_passes : (authorize_singleton cluster_client sample empty_cluster).0 ≡ ok tt
unfolding authorize_singleton sole_verdict is_sole
sample_passes = refl

-- A second instance is not admitted.
handle_iff_example : ((handle cluster_client "CREATE" (ok sample) empty_cluster).0 ≡ allowed) ↔ (
    (kn : Kubernaut) × (ok sample ≡ ok kn)
    × (kn.name ≡ singleton_name)
    × ((cluster_client.list_kubernauts empty_cluster).0 ≡ ok []))
handle_iff_example = handle_iff cluster_client (ok sample) empty_cluster
