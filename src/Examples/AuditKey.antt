-- ===== src/Examples/AuditKey.antt =====
-- The audit HMAC key on the concrete cluster.
use kubernaut_operator.Base.{◌≡◌, ◌≢◌, refl, some, true, [], ◌∷◌, eq_iff, arith}
use kubernaut_operator.Base.Map.{get, lookup}
use kubernaut_operator.Kube.Object.{Object, secret, config_map}
use kubernaut_operator.Kube.Op.{Error, ok, err, not_found}
use kubernaut_operator.AuditKey.{ensure_audit_hash_key, print_of, state_key_of, secret_key_of}
use kubernaut_operator.AuditKey.Material.{reference_for, key_finalizer, data_key}
use kubernaut_operator.AuditKey.Kept.{IsVerified, initialized_key_is_kept, adoption_is_refused}
use kubernaut_operator.Examples.Cluster.{cluster_client, Cluster, live, read, find_latest, same_key}
use kubernaut_operator.Examples.Cluster.Laws.{cluster-IsApiServer}
use kubernaut_operator.Examples.Library.{library, texts}
use kubernaut_operator.Examples.Samples.{sample, settings, empty_cluster, start}

abbrev marker : Object
marker = record settings {
  name = "datastorage-audit-hmac-key-state";
  finalizers = key_finalizer ∷ [];
  body = config_map (("phase", "ready") ∷ ("keyFingerprint", "r1") ∷ []) [];
}

abbrev key_secret : Object
key_secret = record settings {
  kind = "Secret";
  name = "datastorage-audit-hmac-key";
  body = secret ((data_key, "hmacKey") ∷ []) (some true);
}

abbrev marked_cluster : Cluster
marked_cluster = record empty_cluster { log = live marker ∷ [] }

marker_read :
    cluster_client.get (state_key_of sample) marked_cluster
    ≡ (ok (record marker { resource_version = 1 }), marked_cluster)
unfolding read find_latest same_key
marker_read = refl

has_print : print_of (record marker { resource_version = 1 }) ≢ ""
unfolding get lookup
has_print = ground (arith, eq_iff "r1" "")

-- The Secret is lost: the run fails and makes no other.
initialized_key_is_kept_example :
    IsVerified library texts cluster-IsApiServer
      (reference_for sample)
      (print_of (record marker { resource_version = 1 }))
      (start marked_cluster)
      (ensure_audit_hash_key library texts (ok "a2V5") (start marked_cluster))
initialized_key_is_kept_example =
    initialized_key_is_kept library texts cluster-IsApiServer (ok "a2V5") (start marked_cluster)
      (record marker { resource_version = 1 }) marked_cluster marker_read has_print

abbrev occupied_cluster : Cluster
occupied_cluster = record empty_cluster { log = live key_secret ∷ [] }

no_marker :
    cluster_client.get (state_key_of sample) occupied_cluster ≡ (err not_found, occupied_cluster)
unfolding read find_latest same_key
no_marker = refl

is_generated : (reference_for sample).generated ≡ true
unfolding reference_for
is_generated = refl

secret_read :
    (cluster_client.get (secret_key_of sample (reference_for sample)) occupied_cluster).0
    ≡ ok (record key_secret { resource_version = 1 })
unfolding read find_latest same_key reference_for
secret_read = refl

adoption_is_refused_example :
    ((e : Error) × ((ensure_audit_hash_key library texts (ok "a2V5") (start occupied_cluster)).0
        ≡ err e))
    × (cluster_client.history
          (ensure_audit_hash_key library texts (ok "a2V5") (start occupied_cluster)).1.world
        ≡ [])
adoption_is_refused_example =
    adoption_is_refused library texts cluster-IsApiServer (ok "a2V5") (start occupied_cluster)
      (record key_secret { resource_version = 1 }) occupied_cluster no_marker is_generated
      secret_read
