-- ===== src/Kube/Object.antt =====
-- Kubernetes objects, with the fields that the operator reads or writes.
-- A resource version is opaque and only compared, so it is a number; 0 stands for the empty one.
-- Nil and empty maps and slices are not told apart: no modelled test depends on it.
use kubernaut_operator.Base.{ℕ, String, Bool, Option, List}
use kubernaut_operator.Base.Map.{Map}

-- metav1.OwnerReference
pub record OwnerRef : Type 0 where
  pub api_version : String
  pub kind : String
  pub name : String
  pub uid : String
  pub controller : Option Bool

-- corev1.ServicePort
pub record ServicePort : Type 0 where
  pub name : String
  pub protocol : String
  pub port : ℕ
  pub target_port : String
  pub node_port : ℕ

-- corev1.ServiceSpec; `cluster_ip` stands for the addressing that the API server allocates.
pub record ServiceSpec : Type 0 where
  pub selector : Map String
  pub ports : List ServicePort
  pub type : String
  pub session_affinity : String
  pub external_name : String
  pub publish_not_ready_addresses : Bool
  pub cluster_ip : String
  pub external_traffic_policy : String
  pub health_check_node_port : ℕ
  pub load_balancer_class : Option String
  pub allocate_load_balancer_node_ports : Option Bool

-- batchv1.JobCondition
pub record JobCondition : Type 0 where
  pub type : String
  pub status : String
  pub reason : String
  pub message : String

-- What an object holds beside its metadata, by the Go type of the object.
pub data Body : Type 0 where
  service : ServiceSpec → Body
  config_map : (entries binary : Map String) → Body
  secret : (entries : Map String) (immutable : Option Bool) → Body
  job : List JobCondition → Body
  deployment : (replicas : Option ℕ) (ready_replicas : ℕ) → Body
  network_policy : String → Body
  other : String → Body

-- A client.Object: its type, its metadata and its body.
pub record Object : Type 0 where
  pub kind : String
  pub namespace : String
  pub name : String
  pub uid : String
  pub resource_version : ℕ
  pub terminating : Bool  -- the deletion timestamp is set
  pub finalizers : List String
  pub labels : Map String
  pub annotations : Map String
  pub owner_refs : List OwnerRef
  pub body : Body

-- The Go type of an object and its types.NamespacedName.
pub record Key : Type 0 where
  pub kind : String
  pub namespace : String
  pub name : String

abbrev pub key_of : Object → Key
key_of o = record { kind = o.kind; namespace = o.namespace; name = o.name }
