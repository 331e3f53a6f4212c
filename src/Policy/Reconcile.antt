-- ===== src/Policy/Reconcile.antt =====
-- The NetworkPolicies of an instance as a whole (reconcileNetworkPolicies and its helpers of
-- internal/controller/kubernaut_controller.go).
-- The Services that the builders make, and the text of a rendered spec, are arguments.
use kubernaut_operator.Base.{
  ℤ, pos, String, Bool, true, false, not, ◌&&◌, Option, none, some, List, [], ◌∷◌, ◌==◌,
  if◌then◌else◌,
}
use kubernaut_operator.Base.Map.{Map, get, insert}
use kubernaut_operator.Api.Network.{NamedOverride, NetworkPoliciesSpec}
use kubernaut_operator.Kube.Object.{Object, ServicePort, ServiceSpec}
use kubernaut_operator.Kube.Op.{
  Error, wrapped, Result, ok, err, Op, pure, fail, gets, attempt, wrap, lift, rewrap, bind,
  is_ownership_conflict, ◌>>=◌, ◌>>◌,
}
use kubernaut_operator.Kube.Library.{Library}
use kubernaut_operator.Kube.Client.{Client}
use kubernaut_operator.Kubernaut.{
  Kubernaut, Status, Phase, running, degraded, Message, text, failed,
}
use kubernaut_operator.Active.{active_components}
use kubernaut_operator.Status.{
  State, call, emit, set_phase, put_condition, patch_status, condition_status,
}
use kubernaut_operator.Policy.Section.{Names, validate_network_policies_spec}
use kubernaut_operator.Policy.Intent.{Intent, build_intent}
use kubernaut_operator.Policy.Render.{PolicySpec, render}
use kubernaut_operator.Policy.Apply.{ensure_network_policy}
use kubernaut_operator.Policy.Prune.{policy_keys, prune_network_policies}

-- networkPolicyIngressOverrides
abbrev pub network_policy_ingress_overrides : NetworkPoliciesSpec → Map NamedOverride
network_policy_ingress_overrides spec =
    ("gateway", spec.gateway)
    ∷ ("apifrontend", spec.api_frontend)
    ∷ ("console", spec.console)
    ∷ ("data-storage", record { override = spec.data_storage; ingress_namespaces = [] })
    ∷ ("kubernaut-agent", record { override = spec.kubernaut_agent; ingress_namespaces = [] })
    ∷ []

-- generatedMetricsPorts on the Services that the builders make
abbrev pub add_ports : String → List ServicePort → Map ℤ → Map ℤ
add_ports app [] ports = ports
add_ports app (port ∷ rest) ports =
    add_ports app rest (if port.name == "metrics" then insert app (pos port.port) ports else ports)

unfoldable pub generated_metrics_ports : List ServiceSpec → Map ℤ → Map ℤ
generated_metrics_ports [] ports = ports
generated_metrics_ports (service ∷ services) ports =
    generated_metrics_ports services (add_ports (get "app" service.selector) service.ports ports)

module _ (lib : Library) where
  abbrev pub is_running : Phase → Bool
  is_running running = true
  is_running _ = false

  -- The closure of patchNetworkPolicyStatus.
  unfoldable pub network_policy_status : Bool → String → Message → Kubernaut → Status
  network_policy_status ready reason message kn =
      put_condition lib
        (record {
          type = "NetworkPolicyReady";
          status = condition_status ready;
          reason = reason;
          message = message;
          observed_generation = kn.generation;
        })
        (if not ready && is_running kn.status.phase
          then set_phase degraded kn.status
          else kn.status)

  abbrev pub failure_reason : Error → String
  failure_reason e =
      if is_ownership_conflict e
      then "NetworkPolicyOwnershipConflict"
      else "NetworkPolicyApplyFailed"

  abbrev pub failure_event : Error → String
  failure_event e =
      if is_ownership_conflict e
      then "NetworkPolicyOwnershipConflict"
      else "NetworkPolicyUnavailable"

  module _ {c : Client} where
    -- patchNetworkPolicyStatus
    unfoldable pub report_policies : Result (Unit {0}) → Op (State c) (Unit {0})
    report_policies (ok u) = wrap "patching NetworkPolicy status" (
        patch_status (
          network_policy_status true "NetworkPolicyReady" (
            text
              "standard Kubernetes NetworkPolicy objects are applied; dataplane enforcement is not attested")))
    report_policies (err e) = do
      wrap "patching NetworkPolicy status"
          (patch_status (network_policy_status false (failure_reason e) (failed "" e)))
      emit true (failure_event e)
      fail e

module _ (names : Names) (encode : PolicySpec → String)
    (services : Kubernaut → List ServiceSpec) where
  -- The intent of reconcileNetworkPolicies.
  abbrev pub full_intent : Kubernaut → Intent → Intent
  full_intent kn intent = record intent {
    instance_name = kn.name;
    scrape_sources = kn.spec.network_policies.scrape_sources;
    metrics_ports = generated_metrics_ports (services kn) [];
    ingress_overrides = network_policy_ingress_overrides kn.spec.network_policies;
  }

  abbrev pub accepted_section : Kubernaut → Option Error → Result (List Object)
  accepted_section kn (some e) = err e
  accepted_section kn none =
      bind (build_intent kn.namespace (active_components kn.spec))
        λ intent. render names encode (full_intent kn intent)

  -- reconcileNetworkPolicies up to the rendered objects
  unfoldable pub rendered_policies : Kubernaut → Result (List Object)
  rendered_policies kn =
      accepted_section kn (validate_network_policies_spec names kn.spec.network_policies)

module _ (lib : Library) (same_spec same_labels : Object → Object → Bool) {c : Client} where
  -- ensureNetworkPolicy in the loop, with the event of a conflict
  abbrev pub applied : Result (Unit {0}) → Op (State c) (Unit {0})
  applied (ok u) = pure tt
  applied (err e) = do
    (if is_ownership_conflict e then emit true "OwnershipConflict" else pure tt)
    fail (wrapped "ensuring NetworkPolicy" e)

  -- One round of ensureRenderedNetworkPolicies
  unfoldable pub apply_policy : Object → Op (State c) (Unit {0})
  apply_policy object = do
    kn ← gets (λ s. s.cr)
    owned ←
        lift
          (rewrap "setting NetworkPolicy owner reference" (lib.set_controller_reference kn object))
    r ← attempt (call (ensure_network_policy lib same_spec same_labels c owned))
    applied r

  -- The loop of ensureRenderedNetworkPolicies
  unfoldable pub apply_policies : List Object → Op (State c) (Unit {0})
  apply_policies [] = pure tt
  apply_policies (object ∷ objects) = do apply_policy object; apply_policies objects

  -- ensureRenderedNetworkPolicies, and the pruning behind it
  unfoldable pub apply_rendered : Result (List Object) → Op (State c) (Unit {0})
  apply_rendered rendered = do
    objects ← lift rendered
    apply_policies objects
    kn ← gets (λ s. s.cr)
    call (prune_network_policies c kn (policy_keys objects))

  -- reconcileNetworkPolicies
  unfoldable pub reconcile_network_policies :
      Names → (PolicySpec → String) → (Kubernaut → List ServiceSpec) → Op (State c) (Unit {0})
  reconcile_network_policies names encode services = do
    kn ← gets (λ s. s.cr)
    r ← attempt (apply_rendered (rendered_policies names encode services kn))
    report_policies lib r
