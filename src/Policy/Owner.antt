-- ===== src/Policy/Owner.antt =====
-- The labels of a NetworkPolicy and its ownership (internal/policy/types.go, ownership.go).
use kubernaut_operator.Base.{
  String, Bool, false, not, ◌||◌, Option, none, some, List, [], ◌∷◌, ◌==◌,
}
use kubernaut_operator.Base.Map.{get}
use kubernaut_operator.Kube.Object.{OwnerRef, Object}
use kubernaut_operator.Kube.Op.{Error, message}
use kubernaut_operator.Validation.Checks.{first, and_then, first_of}

-- ManagedPolicyLabel, ManagedByLabel, PolicyNamespaceLabel, instanceLabel, componentLabel
abbrev pub managed_policy_label : String
managed_policy_label = "kubernaut.ai/managed-policy"

abbrev pub managed_by_label : String
managed_by_label = "app.kubernetes.io/managed-by"

abbrev pub policy_namespace_label : String
policy_namespace_label = "kubernaut.ai/policy-namespace"

abbrev pub instance_label : String
instance_label = "app.kubernetes.io/instance"

abbrev pub component_label : String
component_label = "app.kubernetes.io/component"

-- `ref.Controller != nil && *ref.Controller`
abbrev pub is_controller : Option Bool → Bool
is_controller none = false
is_controller (some b) = b

-- OwnershipError: the labels, the lifecycle, and the owner references
abbrev pub rejects_ref : String → OwnerRef → Bool
rejects_ref instance ref =
    not (ref.api_version == "kubernaut.ai/v1alpha2")
    || not (ref.kind == "Kubernaut")
    || not (ref.name == instance)
    || not (is_controller ref.controller)

abbrev pub ref_error : Object → Object → List OwnerRef → Option Error
ref_error existing desired [] = none
ref_error existing desired (ref ∷ []) =
    first (not (existing.namespace == get policy_namespace_label desired.labels))
      (message "refusing to overwrite NetworkPolicy with foreign or invalid-scope owners")
      (first (rejects_ref (get instance_label desired.labels) ref)
        (message "refusing to overwrite NetworkPolicy with foreign owner") none)
ref_error existing desired (ref ∷ other ∷ refs) =
    some (message "refusing to overwrite NetworkPolicy with foreign or invalid-scope owners")

abbrev pub label_error : Object → Object → String → Option Error
label_error existing desired label =
    first (not (get label existing.labels == get label desired.labels))
      (message "refusing to overwrite NetworkPolicy with different ownership") none

unfoldable pub policy_ownership_error : Object → Object → Option Error
policy_ownership_error existing desired =
    first (not (get managed_policy_label existing.labels == "true"))
      (message "refusing to overwrite unmanaged NetworkPolicy")
      (and_then
        (first_of (label_error existing desired)
          (managed_by_label ∷ policy_namespace_label ∷ instance_label ∷ []))
        (first existing.terminating (message "refusing to overwrite terminating NetworkPolicy")
          (ref_error existing desired existing.owner_refs)))
