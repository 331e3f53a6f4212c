-- ===== src/Policy/Render.antt =====
-- The objects of an intent (internal/policy/render.go).
use kubernaut_operator.Base.{
  ℤ, at_least, at_most, String, Bool, false, not, ◌&&◌, ◌||◌, Option, none, some, List, [], ◌∷◌,
  ◌++◌, ◌==◌, if◌then◌else◌,
}
use kubernaut_operator.Base.Map.{Map, lookup}
use kubernaut_operator.Api.Network.{LabelSelector, ScrapeSource, NamedOverride}
use kubernaut_operator.Kube.Object.{Object, network_policy}
use kubernaut_operator.Kube.Op.{Error, message, Result, ok, err}
use kubernaut_operator.Validation.Checks.{first, and_then, first_of}
use kubernaut_operator.Policy.Owner.{
  managed_policy_label, managed_by_label, policy_namespace_label, instance_label, component_label,
}
use kubernaut_operator.Policy.Section.{Names, validate_scrape_sources}
use kubernaut_operator.Policy.Intent.{Intent}

-- A peer of an ingress rule: pods of the instance, pods of a namespace, namespaces, or an address
-- block.
pub data Peer : Type 0 where
  pods : Map String → Peer
  pods_in : (namespace_labels pod_labels : Map String) → Peer
  namespaces : LabelSelector → Peer
  block : String → Peer

-- networkingv1.NetworkPolicyIngressRule with one peer, and a TCP port where there is one
pub record Rule : Type 0 where
  pub from : Peer
  pub port : Option ℤ

-- networkingv1.NetworkPolicySpec of an ingress policy
pub record PolicySpec : Type 0 where
  pub pod_selector : Map String
  pub ingress : List Rule

-- managedInstanceLabels, managedPodLabels
abbrev pub managed_instance_labels : String → Map String
managed_instance_labels instance =
    (managed_by_label, "kubernaut-operator") ∷ (instance_label, instance) ∷ []

abbrev pub managed_pod_labels : String → String → Map String
managed_pod_labels instance component = ("app", component) ∷ managed_instance_labels instance

abbrev pub named_namespace : String → Map String
named_namespace namespace = ("kubernetes.io/metadata.name", namespace) ∷ []

module _ {A : Type 0} where
  abbrev pub rules : (A → Rule) → List A → List Rule
  rules f [] = []
  rules f (x ∷ xs) = f x ∷ rules f xs

-- ingressOverrideRules
unfoldable pub ingress_override_rules : Option NamedOverride → List Rule
ingress_override_rules none = []
ingress_override_rules (some named) =
    rules
      (λ namespace. record {
        from =
            namespaces
              (record { match_labels = named_namespace namespace; match_expressions = [] });
        port = none;
      })
      named.ingress_namespaces
    ++ rules (λ selector. record { from = namespaces selector; port = none })
        named.override.ingress_namespace_selectors
    ++ rules (λ cidr. record { from = block cidr; port = none }) named.override.ingress_cidrs

abbrev pub is_zero : ℤ → Bool
is_zero z = at_least 0 z && at_most 0 z

-- The rules of the scrape sources, for a component with a metrics port.
abbrev pub scrape_rules : Option ℤ → List ScrapeSource → List Rule
scrape_rules none sources = []
scrape_rules (some port) sources =
    if is_zero port
    then []
    else rules
        (λ source. record {
          from = pods_in (named_namespace source.namespace) source.pod_labels;
          port = some port;
        })
        sources

abbrev pub policy_spec : Intent → String → PolicySpec
policy_spec intent component = record {
  pod_selector = managed_pod_labels intent.instance_name component;
  ingress =
      record { from = pods (managed_instance_labels intent.instance_name); port = none }
        ∷ scrape_rules (lookup component intent.metrics_ports) intent.scrape_sources
      ++ ingress_override_rules (lookup component intent.ingress_overrides);
}

module _ (encode : PolicySpec → String) where
  -- The object of one component; `encode` is the text of its spec.
  abbrev pub policy_object : Intent → String → Object
  policy_object intent component = record {
    kind = "NetworkPolicy";
    namespace = intent.namespace;
    name = Prim.Native.String.◌++◌ "kubernaut-" component;
    uid = "";
    resource_version = 0;
    terminating = false;
    finalizers = [];
    labels =
        (managed_policy_label, "true")
        ∷ (managed_by_label, "kubernaut-operator")
        ∷ (policy_namespace_label, intent.namespace)
        ∷ (instance_label, intent.instance_name)
        ∷ (component_label, component)
        ∷ [];
    annotations = [];
    owner_refs = [];
    body = network_policy (encode (policy_spec intent component));
  }

  -- The loop of Render over the components
  unfoldable pub policy_objects : Intent → List String → List Object
  policy_objects intent [] = []
  policy_objects intent (component ∷ components) =
      let rest = policy_objects intent components in
      if component == "authwebhook" || component == "console"
      then rest
      else policy_object intent component ∷ rest

abbrev pub port_error : String × ℤ → Option Error
port_error (component, port) =
    first (not (at_least 1 port) || not (at_most 65535 port))
      (message "invalid metrics port for component") none

-- `if intent.InstanceName == "" { intent.InstanceName = intent.Namespace }`
abbrev pub with_instance : Intent → Intent
with_instance intent = record intent {
  instance_name = if intent.instance_name == "" then intent.namespace else intent.instance_name;
}

abbrev pub or_objects : Option Error → List Object → Result (List Object)
or_objects none objects = ok objects
or_objects (some e) objects = err e

-- Render
unfoldable pub render : Names → (PolicySpec → String) → Intent → Result (List Object)
render names encode intent =
    or_objects
      (first (intent.namespace == "") (message "policy namespace is required") (
        and_then (validate_scrape_sources names intent.scrape_sources)
          (first_of port_error intent.metrics_ports)))
      (policy_objects encode (with_instance intent) intent.components)
