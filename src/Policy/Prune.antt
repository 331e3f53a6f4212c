-- ===== src/Policy/Prune.antt =====
-- The removal of stale NetworkPolicies (pruneNetworkPolicies, policyObjectKey of
-- internal/controller/kubernaut_controller.go; deleteObservedNetworkPolicy of
-- internal/controller/ownership.go).
use Prim.Native.String.{◌++◌}
use kubernaut_operator.Base.{
  String, Bool, false, not, ◌||◌, Option, none, some, List, [], ◌∷◌, ◌==◌, contains, if◌then◌else◌,
}
use kubernaut_operator.Base.Map.{Map, get}
use kubernaut_operator.Kube.Object.{Object, network_policy}
use kubernaut_operator.Kube.Op.{
  Error, ownership, sentinel, both, wrapped, Result, ok, err, Op, pure, fail, attempt, wrap,
  is_not_found, ◌>>=◌, ◌>>◌,
}
use kubernaut_operator.Kube.Client.{Client, Selector}
use kubernaut_operator.Kubernaut.{Kubernaut}
use kubernaut_operator.Policy.Owner.{
  managed_policy_label, managed_by_label, policy_namespace_label, instance_label,
  policy_ownership_error,
}

-- policyObjectKey; every object is a networking.k8s.io/v1 NetworkPolicy.
abbrev pub policy_object_key : Object → String
policy_object_key o = "networking.k8s.io/v1/NetworkPolicy/" ++ o.namespace ++ "/" ++ o.name

abbrev pub policy_keys : List Object → List String
policy_keys [] = []
policy_keys (o ∷ os) = policy_object_key o ∷ policy_keys os

-- The labels that the managed policies of an instance carry.
abbrev pub policy_labels : String → String → Map String
policy_labels namespace instance =
    (managed_policy_label, "true")
    ∷ (managed_by_label, "kubernaut-operator")
    ∷ (policy_namespace_label, namespace)
    ∷ (instance_label, instance)
    ∷ []

abbrev pub policy_selector : Kubernaut → Selector
policy_selector kn = record {
  kind = "NetworkPolicy";
  namespace = kn.namespace;
  labels = policy_labels kn.namespace kn.name;
}

-- The test of deleteObservedNetworkPolicy that preserves an object.
unfoldable pub is_outside : Object → String → Bool
is_outside obj instance =
    not (get managed_policy_label obj.labels == "true")
    || not (get managed_by_label obj.labels == "kubernaut-operator")
    || not (get policy_namespace_label obj.labels == obj.namespace)
    || not (get instance_label obj.labels == instance)

-- The `expected` of deleteObservedNetworkPolicy.
abbrev pub expected_policy : Object → String → Object
expected_policy obj instance = record {
  kind = "NetworkPolicy";
  namespace = obj.namespace;
  name = obj.name;
  uid = "";
  resource_version = 0;
  terminating = false;
  finalizers = [];
  labels = policy_labels obj.namespace instance;
  annotations = [];
  owner_refs = [];
  body = network_policy "";
}

module _ (c : Client) where
  abbrev pub policy_deleted : Result (Unit {0}) → Op c.World (Unit {0})
  policy_deleted (ok u) = pure tt
  policy_deleted (err e) = if is_not_found e then pure tt else fail e

  abbrev pub delete_checked : Object → Option Error → Op c.World (Unit {0})
  delete_checked obj (some e) =
      fail (both (ownership sentinel) (wrapped "refusing to delete NetworkPolicy" e))
  delete_checked obj none = do r ← attempt (c.delete obj); policy_deleted r

  -- deleteObservedNetworkPolicy
  unfoldable pub delete_observed_policy : Object → String → Op c.World (Unit {0})
  delete_observed_policy obj instance =
      if is_outside obj instance
      then pure tt
      else delete_checked obj (policy_ownership_error obj (expected_policy obj instance))

  -- The loop of pruneNetworkPolicies
  unfoldable pub prune_listed : String → List String → List Object → Op c.World (Unit {0})
  prune_listed instance desired [] = pure tt
  prune_listed instance desired (o ∷ os) = do
    (if contains desired (policy_object_key o)
        then pure tt
        else wrap "deleting stale NetworkPolicy" (delete_observed_policy o instance))
    prune_listed instance desired os

  -- pruneNetworkPolicies
  unfoldable pub prune_network_policies : Kubernaut → List String → Op c.World (Unit {0})
  prune_network_policies kn desired = do
    listed ← wrap "listing stale NetworkPolicies" (c.list (policy_selector kn))
    prune_listed kn.name desired listed
