-- ===== src/Examples/Samples.antt =====
-- The custom resource and the objects that the examples share.
use kubernaut_operator.Base.{refl, ◌≡◌, String, ◌≢◌, eq_iff, arith, false, [], ◌∷◌}
use kubernaut_operator.Kube.Object.{Object, config_map}
use kubernaut_operator.Kubernaut.{Kubernaut, Status, unset}
use kubernaut_operator.Status.{State}
use kubernaut_operator.Status.Phases.{IsStatusServer}
use kubernaut_operator.Examples.Spec.{sample_spec}
use kubernaut_operator.Examples.Cluster.{Cluster, live, cluster_client}

abbrev pub fresh_status : Status
fresh_status = record {
  phase = unset;
  conditions = [];
  services = [];
  last_migration_hash = "";
  bound_tool_role_bindings = [];
}

abbrev pub sample : Kubernaut
sample = record {
  name = "kubernaut";
  namespace = "prod";
  uid = "u1";
  generation = 1;
  resource_version = 7;
  terminating = false;
  finalizers = "kubernaut.ai/cleanup" ∷ [];
  spec = sample_spec;
  status = fresh_status;
}

abbrev pub settings : Object
settings = record {
  kind = "ConfigMap";
  namespace = "prod";
  name = "settings";
  uid = "";
  resource_version = 0;
  terminating = false;
  finalizers = [];
  labels = ("tier", "core") ∷ [];
  annotations = [];
  owner_refs = [];
  body = config_map (("key", "value") ∷ []) [];
}

-- The same name, written by somebody else.
abbrev pub foreign_settings : Object
foreign_settings = record settings { labels = ("app.kubernetes.io/managed-by", "helm") ∷ [] }

abbrev pub empty_cluster : Cluster
empty_cluster = record { log = []; writes = []; crs = sample ∷ [] }

abbrev pub foreign_cluster : Cluster
foreign_cluster = record empty_cluster { log = live foreign_settings ∷ [] }

abbrev pub start : Cluster → State cluster_client
start w = record { cr = sample; world = w; events = [] }

pub in_prod : ◌≢◌ {A = String} "prod" ""
in_prod = ground (arith, eq_iff "prod" "")

-- The cluster answers a status patch with what was sent.
pub cluster-IsStatusServer : IsStatusServer cluster_client
cluster-IsStatusServer = record {
  patch_applies = λ old new w kn h. let e : new ≡ kn = cc in rw (← e) (refl, refl, refl, refl);
}
