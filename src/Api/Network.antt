-- ===== src/Api/Network.antt =====
-- The spec of the network policies (api/v1alpha2/kubernaut_types.go).
use kubernaut_operator.Base.{String, List}
use kubernaut_operator.Base.Map.{Map}

-- metav1.LabelSelector; the expressions are opaque texts
pub record LabelSelector : Type 0 where
  pub match_labels : Map String
  pub match_expressions : List String

-- MetricsScrapeSource
pub record ScrapeSource : Type 0 where
  pub namespace : String
  pub pod_labels : Map String

-- NetworkPolicyIngressOverride
pub record IngressOverride : Type 0 where
  pub ingress_cidrs : List String
  pub ingress_namespace_selectors : List LabelSelector

-- NetworkPolicyNamedIngressOverride
pub record NamedOverride : Type 0 where
  pub override : IngressOverride
  pub ingress_namespaces : List String

-- NetworkPoliciesSpec
pub record NetworkPoliciesSpec : Type 0 where
  pub scrape_sources : List ScrapeSource
  pub gateway : NamedOverride
  pub api_frontend : NamedOverride
  pub console : NamedOverride
  pub data_storage : IngressOverride
  pub kubernaut_agent : IngressOverride
