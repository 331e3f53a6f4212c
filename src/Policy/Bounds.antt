-- ===== src/Policy/Bounds.antt =====
-- The bounds of the section of the network policies (ValidateNetworkPoliciesSpec of
-- internal/policy/intent.go).
use kubernaut_operator.Base.{
  ◌≤◌, length, String, ◌≡◌, ◌≢◌, ◌↔◌, true, false, none, List, [], ◌∷◌, All, is_empty,
}
use kubernaut_operator.Api.Network.{
  LabelSelector, ScrapeSource, IngressOverride, NamedOverride, NetworkPoliciesSpec,
}
use kubernaut_operator.Validation.Checks.{◌&◌}
use kubernaut_operator.Validation.Accept.{
  first_iff, last_iff, and_then_iff, first_of_iff, not_above, or_false, and_false, flip_false,
  differs, is_true, is_false,
}
use kubernaut_operator.Policy.Section.{
  Names, pod_label_error, scrape_source_error, validate_scrape_sources, selector_error,
  validate_ingress_override, validate_named_override, validate_network_policies_spec,
}

module _ (names : Names) where
  -- A label whose key is not one of the cluster's own.
  abbrev pub IsPodLabel : String × String → Type 0
  IsPodLabel (key, value) =
      ((names.is_qualified_name key ≡ true) & (names.is_label_value value ≡ true))
      & ((key ≢ "kubernetes.io/metadata.name") & (names.has_prefix key "kubernetes.io/" ≡ false))

  abbrev pub IsScrapeSource : ScrapeSource → Type 0
  IsScrapeSource source =
      (names.is_dns1123_label source.namespace ≡ true)
      & (((is_empty source.pod_labels ≡ false) & (length source.pod_labels ≤ 16))
          & All IsPodLabel source.pod_labels)

  abbrev pub AreScrapeSources : List ScrapeSource → Type 0
  AreScrapeSources sources = (length sources ≤ 16) & All IsScrapeSource sources

  abbrev pub IsPeerSelector : LabelSelector → Type 0
  IsPeerSelector selector =
      (is_empty selector.match_labels ≡ true → is_empty selector.match_expressions ≡ false)
      & (names.is_selector selector ≡ true)

  -- At most 16 peers of each sort, every one valid.
  abbrev pub IsOverride : IngressOverride → Type 0
  IsOverride override =
      (length override.ingress_cidrs ≤ 16)
      & ((length override.ingress_namespace_selectors ≤ 16)
          & (All (λ cidr. names.is_cidr cidr ≡ true) override.ingress_cidrs
              & All IsPeerSelector override.ingress_namespace_selectors))

  abbrev pub IsNamedOverride : NamedOverride → Type 0
  IsNamedOverride named =
      IsOverride named.override
      & ((length named.ingress_namespaces ≤ 16)
          & All (λ namespace. names.is_dns1123_label namespace ≡ true) named.ingress_namespaces)

  -- What the section has to satisfy.
  abbrev pub IsNetworkSection : NetworkPoliciesSpec → Type 0
  IsNetworkSection spec =
      AreScrapeSources spec.scrape_sources
      & (All IsNamedOverride (spec.gateway ∷ spec.api_frontend ∷ spec.console ∷ [])
          & All IsOverride (spec.data_storage ∷ spec.kubernaut_agent ∷ []))

  scrape_label_iff :
      (label : String × String) → (pod_label_error names label ≡ none) ↔ IsPodLabel label
  scrape_label_iff (key, value) =
      first_iff _
        (or_false (flip_false (is_true (names.is_qualified_name key)))
          (flip_false (is_true (names.is_label_value value))))
        (last_iff _ (
          or_false (differs key "kubernetes.io/metadata.name")
            (is_false (names.has_prefix key "kubernetes.io/"))))

  source_iff :
      (source : ScrapeSource) → (scrape_source_error names source ≡ none) ↔ IsScrapeSource source
  source_iff source = first_iff _ (flip_false (is_true (names.is_dns1123_label source.namespace))) (
      first_iff _
        (or_false (is_false (is_empty source.pod_labels)) (not_above 16 (length source.pod_labels)))
        (first_of_iff source.pod_labels scrape_label_iff))

  pub scrape_sources_iff :
      (sources : List ScrapeSource)
      → (validate_scrape_sources names sources ≡ none) ↔ AreScrapeSources sources
  unfolding validate_scrape_sources
  scrape_sources_iff sources =
      first_iff _ (not_above 16 (length sources)) (first_of_iff sources source_iff)

  selector_iff :
      (selector : LabelSelector) → (selector_error names selector ≡ none) ↔ IsPeerSelector selector
  selector_iff selector =
      first_iff _
        (and_false (is_true (is_empty selector.match_labels))
          (is_false (is_empty selector.match_expressions)))
        (last_iff _ (flip_false (is_true (names.is_selector selector))))

  peers_iff :
      (override : IngressOverride)
      → (validate_ingress_override names override ≡ none) ↔ IsOverride override
  unfolding validate_ingress_override
  peers_iff override = first_iff _ (not_above 16 (length override.ingress_cidrs)) (
      first_iff _ (not_above 16 (length override.ingress_namespace_selectors)) (
        and_then_iff _ _
          (first_of_iff override.ingress_cidrs
            λ cidr. last_iff _ (flip_false (is_true (names.is_cidr cidr))))
          (first_of_iff override.ingress_namespace_selectors selector_iff)))

  named_iff :
      (named : NamedOverride) → (validate_named_override names named ≡ none) ↔ IsNamedOverride named
  unfolding validate_named_override
  named_iff named = and_then_iff _ _ (peers_iff named.override) (
      first_iff _ (not_above 16 (length named.ingress_namespaces)) (
        first_of_iff named.ingress_namespaces
          λ namespace. last_iff _ (flip_false (is_true (names.is_dns1123_label namespace)))))

  -- ValidateNetworkPoliciesSpec has no complaint exactly if there are at most 16 scrape sources, each
  -- with a valid namespace and 1 to 16 valid labels outside the cluster's own names, and each of the
  -- five overrides has at most 16 CIDRs and 16 selectors, every CIDR and selector valid and no selector
  -- empty, and those of the gateway, the API frontend and the console at most 16 valid namespaces.
  pub network_policies_spec_iff :
      (spec : NetworkPoliciesSpec)
      → (validate_network_policies_spec names spec ≡ none) ↔ IsNetworkSection spec
  unfolding validate_network_policies_spec
  network_policies_spec_iff spec = and_then_iff _ _ (scrape_sources_iff spec.scrape_sources) (
      and_then_iff _ _
        (first_of_iff (spec.gateway ∷ spec.api_frontend ∷ spec.console ∷ []) named_iff)
        (first_of_iff (spec.data_storage ∷ spec.kubernaut_agent ∷ []) peers_iff))
