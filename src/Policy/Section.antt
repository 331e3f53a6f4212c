-- ===== src/Policy/Section.antt =====
-- The checks of the section of the network policies (ValidateNetworkPoliciesSpec of
-- internal/policy/intent.go). Maps are walked in the order of their entries; error texts leave out
-- what the code formats into them.
use kubernaut_operator.Base.{
  ltb, length, String, Bool, not, ◌&&◌, ◌||◌, Option, none, List, [], ◌∷◌, ◌==◌, is_empty,
}
use kubernaut_operator.Api.Network.{
  LabelSelector, ScrapeSource, IngressOverride, NamedOverride, NetworkPoliciesSpec,
}
use kubernaut_operator.Kube.Op.{Error, message}
use kubernaut_operator.Validation.Checks.{first, and_then, first_of}

-- What the checks call of Go's libraries and of k8s.io/apimachinery: ParseCIDR and
-- LabelSelectorAsSelector succeed, and the tests of names have no complaint.
pub record Names : Type 0 where
  pub is_dns1123_label : String → Bool
  pub is_qualified_name : String → Bool
  pub is_label_value : String → Bool
  pub is_cidr : String → Bool
  pub is_selector : LabelSelector → Bool
  pub has_prefix : String → String → Bool

module _ (names : Names) where
  abbrev pub pod_label_error : String × String → Option Error
  pod_label_error (key, value) =
      first (not (names.is_qualified_name key) || not (names.is_label_value value))
        (message "metrics scrape source has an invalid pod label")
        (first (key == "kubernetes.io/metadata.name" || names.has_prefix key "kubernetes.io/")
          (message "metrics scrape source cannot override reserved namespace identity") none)

  abbrev pub scrape_source_error : ScrapeSource → Option Error
  scrape_source_error source =
      first (not (names.is_dns1123_label source.namespace))
        (message "metrics scrape source requires a valid exact namespace")
        (first (is_empty source.pod_labels || ltb 16 (length source.pod_labels))
          (message "metrics scrape source requires 1 to 16 exact pod labels")
          (first_of pod_label_error source.pod_labels))

  -- validateScrapeSources
  unfoldable pub validate_scrape_sources : List ScrapeSource → Option Error
  validate_scrape_sources sources =
      first (ltb 16 (length sources)) (message "at most 16 metrics scrape sources are supported")
        (first_of scrape_source_error sources)

  abbrev pub selector_error : LabelSelector → Option Error
  selector_error selector =
      first (is_empty selector.match_labels && is_empty selector.match_expressions)
        (message "network policy ingress namespace selector must not be empty")
        (first (not (names.is_selector selector))
          (message "network policy ingress namespace selector is invalid") none)

  abbrev pub cidr_error : String → Option Error
  cidr_error cidr =
      first (not (names.is_cidr cidr)) (message "network policy ingress CIDR is invalid") none

  -- validateIngressOverride
  unfoldable pub validate_ingress_override : IngressOverride → Option Error
  validate_ingress_override override =
      first (ltb 16 (length override.ingress_cidrs))
        (message "network policy supports at most 16 ingress CIDRs")
        (first (ltb 16 (length override.ingress_namespace_selectors))
          (message "network policy supports at most 16 ingress namespace selectors")
          (and_then (first_of cidr_error override.ingress_cidrs)
            (first_of selector_error override.ingress_namespace_selectors)))

  abbrev pub namespace_error : String → Option Error
  namespace_error namespace =
      first (not (names.is_dns1123_label namespace))
        (message "network policy ingress namespace is invalid") none

  -- One round of the first loop of ValidateNetworkPoliciesSpec.
  unfoldable pub validate_named_override : NamedOverride → Option Error
  validate_named_override named = and_then (validate_ingress_override named.override) (
      first (ltb 16 (length named.ingress_namespaces))
        (message "network policy supports at most 16 ingress namespaces")
        (first_of namespace_error named.ingress_namespaces))

  -- ValidateNetworkPoliciesSpec
  unfoldable pub validate_network_policies_spec : NetworkPoliciesSpec → Option Error
  validate_network_policies_spec spec = and_then (validate_scrape_sources spec.scrape_sources) (
      and_then
        (first_of validate_named_override (spec.gateway ∷ spec.api_frontend ∷ spec.console ∷ []))
        (first_of validate_ingress_override (spec.data_storage ∷ spec.kubernaut_agent ∷ [])))
