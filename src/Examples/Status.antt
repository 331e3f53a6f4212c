-- ===== src/Examples/Status.antt =====
-- The status writes and the reconciliation of one object on the concrete cluster.
use kubernaut_operator.Base.{String, ◌≡◌, refl, ◌⊎◌, inl, some, if◌then◌else◌, ◌==◌, false, [], ◌∷◌}
use kubernaut_operator.Base.Map.{get}
use kubernaut_operator.Ownership.{stamp_ownership}
use kubernaut_operator.Kube.Object.{key_of}
use kubernaut_operator.Kube.Op.{Error, ok, err}
use kubernaut_operator.Kubernaut.{text, error}
use kubernaut_operator.Status.{set_condition_and_requeue, requeue_error}
use kubernaut_operator.Status.Phases.{set_condition_and_requeue_lem, failed_condition}
use kubernaut_operator.Ensure.{ensure_resource_changed, prepare}
use kubernaut_operator.Ensure.Converge.{ensure_idle, as_stored, no_refs}
use kubernaut_operator.Examples.Cluster.{cluster_client, Cluster, live, read, find_latest}
use kubernaut_operator.Examples.Library.{library, library-IsDeepEqual, library-IsConditionSet}
use kubernaut_operator.Examples.Samples.{
  sample, cluster-IsStatusServer, settings, empty_cluster, start, in_prod,
}

set_condition_and_requeue_lem_example :
    let (r, t) =
      set_condition_and_requeue library "BYOValidated" "ValkeyHostInvalid"
        (text "bad")
        (start empty_cluster) in
    ((r ≡ ok requeue_error)
      × (t.cr.status.phase ≡ error)
      × ((other : String)
          → library.find_condition other t.cr.status.conditions ≡ (
              if "BYOValidated" == other
              then some (failed_condition "BYOValidated" "ValkeyHostInvalid" (text "bad") 1)
              else library.find_condition other [])))
    ⊎ (((e : Error) × (r ≡ err e)) × (t.cr ≡ sample))
set_condition_and_requeue_lem_example =
    set_condition_and_requeue_lem library cluster-IsStatusServer library-IsConditionSet
      "BYOValidated" "ValkeyHostInvalid" (text "bad") (start empty_cluster)

-- The object as written, in a cluster that holds it.
abbrev settled_cluster : Cluster
settled_cluster = record empty_cluster { log = live (prepare library sample settings) ∷ [] }

settled_read :
    cluster_client.get (key_of (prepare library sample settings)) settled_cluster
    ≡ (ok (as_stored library sample settings "" 1 settings.body), settled_cluster)
unfolding read prepare find_latest stamp_ownership
settled_read = refl

ensure_idle_example :
    ensure_resource_changed library settings (start settled_cluster)
    ≡ (ok false, start settled_cluster)
unfolding get
ensure_idle_example =
    ensure_idle library cluster_client settings (start settled_cluster) "" 1 settings.body
      settled_cluster library-IsDeepEqual in_prod refl (no_refs refl) ((inl refl, tt), tt)
      settled_read
