-- ===== src/Examples/Policy.antt =====
-- The network policies at a concrete namespace.
use kubernaut_operator.Base.{
  pos, String, ◌≡◌, ◌↔◌, refl, true, false, none, List, [], ◌∷◌, contains, length,
}
use kubernaut_operator.Base.Map.{get, lookup}
use kubernaut_operator.Kube.Object.{Object}
use kubernaut_operator.Kube.Op.{ok}
use kubernaut_operator.Hash.{set_hash_annotation}
use kubernaut_operator.Validation.Checks.{first, first_of}
use kubernaut_operator.Policy.Owner.{policy_ownership_error}
use kubernaut_operator.Policy.Owned.{IsOwnPolicy, policy_ownership_iff}
use kubernaut_operator.Policy.Section.{
  Names, validate_scrape_sources, validate_ingress_override, validate_named_override,
  validate_network_policies_spec,
}
use kubernaut_operator.Policy.Bounds.{IsNetworkSection, network_policies_spec_iff}
use kubernaut_operator.Policy.Intent.{
  Intent, insert_sorted, sort_strings, unique, new_intent, build_intent,
}
use kubernaut_operator.Policy.Components.{IsIntentOf, build_intent_lem}
use kubernaut_operator.Policy.Render.{PolicySpec, policy_object, policy_objects, render}
use kubernaut_operator.Policy.Accepted.{IsRendering, render_lem}
use kubernaut_operator.Ensure.Writes.{Extends}
use kubernaut_operator.Policy.Apply.{
  update_network_policy, create_policy, with_hash, ensure_network_policy,
}
use kubernaut_operator.Policy.Guarded.{AllowedPolicy, ensure_network_policy_safe}
use kubernaut_operator.Examples.Cluster.{
  create_new, append, Cluster, live, find_latest, read, cluster_client,
}
use kubernaut_operator.Examples.Cluster.Laws.{cluster-IsApiServer}
use kubernaut_operator.Examples.Library.{library}
use kubernaut_operator.Examples.Samples.{empty_cluster}
use kubernaut_operator.Examples.Spec.{sample_networks}

abbrev pub names : Names
names = record {
  is_dns1123_label = λ name. true;
  is_qualified_name = λ name. true;
  is_label_value = λ value. true;
  is_cidr = λ cidr. true;
  is_selector = λ selector. true;
  has_prefix = λ text prefix. false;
}

abbrev pub encode : PolicySpec → String
encode spec = "ingress"

abbrev given_components : List String
given_components = "gateway" ∷ "" ∷ "datastorage" ∷ "gateway" ∷ "console" ∷ []

abbrev intent : Intent
intent = record (new_intent "ops" given_components) {
  instance_name = "kubernaut";
  metrics_ports = ("gateway", pos 9090) ∷ [];
}

abbrev rendered : List Object
rendered = policy_object encode intent "datastorage" ∷ policy_object encode intent "gateway" ∷ []

abbrev desired_policy : Object
desired_policy = policy_object encode intent "gateway"

policy_ownership_iff_example :
    (policy_ownership_error (record desired_policy { uid = "7" }) desired_policy ≡ none)
    ↔ IsOwnPolicy (record desired_policy { uid = "7" }) desired_policy
policy_ownership_iff_example =
    policy_ownership_iff (record desired_policy { uid = "7" }) desired_policy

network_policies_spec_iff_example :
    (validate_network_policies_spec names sample_networks ≡ none)
    ↔ IsNetworkSection names sample_networks
network_policies_spec_iff_example = network_policies_spec_iff names sample_networks

intent_built : build_intent "ops" given_components ≡ ok (new_intent "ops" given_components)
unfolding build_intent unique contains
intent_built = refl

build_intent_lem_example : IsIntentOf "ops" given_components (new_intent "ops" given_components)
build_intent_lem_example =
    build_intent_lem "ops" given_components (new_intent "ops" given_components) intent_built

render_succeeds : render names encode intent ≡ ok rendered
unfolding render validate_scrape_sources first first_of policy_objects sort_strings insert_sorted
    unique contains
render_succeeds = refl

render_lem_example : IsRendering names intent rendered
render_lem_example = render_lem names encode intent rendered render_succeeds

section_accepted : validate_network_policies_spec names sample_networks ≡ none
unfolding validate_network_policies_spec validate_scrape_sources validate_named_override
    validate_ingress_override first first_of
section_accepted = refl

policy_accepted : policy_ownership_error desired_policy desired_policy ≡ none
unfolding policy_ownership_error get lookup first first_of
policy_accepted = refl

-- A NetworkPolicy of the same name that somebody else made.
abbrev foreign_policies : Cluster
foreign_policies = record empty_cluster { log = live (record desired_policy { labels = [] }) ∷ [] }

ensure_network_policy_safe_example :
    Extends
      (AllowedPolicy (with_hash library desired_policy))
      []
      (ensure_network_policy library
        (λ a b. true)
        (λ a b. true)
        cluster_client
        desired_policy
        foreign_policies).1.writes
ensure_network_policy_safe_example =
    ensure_network_policy_safe library (λ a b. true) (λ a b. true) cluster-IsApiServer
      desired_policy foreign_policies

foreign_policy_is_kept :
    (ensure_network_policy library
      (λ a b. true)
      (λ a b. true)
      cluster_client
      desired_policy
      foreign_policies).1.writes
    ≡ []
unfolding ensure_network_policy update_network_policy policy_ownership_error get lookup first
    first_of find_latest read set_hash_annotation
foreign_policy_is_kept = refl

new_policy_is_created :
    length
      (ensure_network_policy library
        (λ a b. true)
        (λ a b. true)
        cluster_client
        desired_policy
        empty_cluster).1.writes
    ≡ 1
unfolding ensure_network_policy create_policy find_latest read set_hash_annotation create_new append
new_policy_is_created = refl
