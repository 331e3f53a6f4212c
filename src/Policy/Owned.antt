-- ===== src/Policy/Owned.antt =====
-- Which NetworkPolicies the operator takes for its own (OwnershipError of
-- internal/policy/ownership.go).
use kubernaut_operator.Base.{String, ◌≡◌, ◌↔◌, refl, true, false, none, List, [], ◌∷◌}
use kubernaut_operator.Base.Map.{get}
use kubernaut_operator.Kube.Object.{OwnerRef, Object}
use kubernaut_operator.Validation.Checks.{◌&◌}
use kubernaut_operator.Validation.Accept.{
  first_iff, last_iff, and_then_iff, first_of_iff, or_false, flip_false, same_not, is_true,
  is_false,
}
use kubernaut_operator.Policy.Owner.{
  managed_policy_label, managed_by_label, policy_namespace_label, instance_label, is_controller,
  ref_error, policy_ownership_error,
}

-- A reference to the instance as the controller.
abbrev pub IsInstanceRef : String → OwnerRef → Type 0
IsInstanceRef instance ref =
    (ref.api_version ≡ "kubernaut.ai/v1alpha2")
    & (ref.kind ≡ "Kubernaut")
    & (ref.name ≡ instance)
    & (is_controller ref.controller ≡ true)

-- No owner, or the instance alone, in the namespace of the policies.
abbrev pub HasOwner : Object → Object → List OwnerRef → Type 0
HasOwner existing desired [] = Unit
HasOwner existing desired (ref ∷ []) =
    (existing.namespace ≡ get policy_namespace_label desired.labels)
    & IsInstanceRef (get instance_label desired.labels) ref
HasOwner existing desired (ref ∷ other ∷ refs) = ⊥

-- The object that is there is the operator's and belongs to the same instance and namespace as the
-- desired one.
pub record IsOwnPolicy (existing desired : Object) : Type 0 where
  pub is_managed : get managed_policy_label existing.labels ≡ "true"
  pub same_manager : get managed_by_label existing.labels ≡ get managed_by_label desired.labels
  pub same_namespace :
      get policy_namespace_label existing.labels ≡ get policy_namespace_label desired.labels
  pub same_instance : get instance_label existing.labels ≡ get instance_label desired.labels
  pub is_live : existing.terminating ≡ false
  pub owner : HasOwner existing desired existing.owner_refs

owner_iff :
    (existing desired : Object) (refs : List OwnerRef)
    → (ref_error existing desired refs ≡ none) ↔ HasOwner existing desired refs
owner_iff existing desired [] = (λ h. tt, λ h. refl)
owner_iff existing desired (ref ∷ []) =
    first_iff _ (same_not existing.namespace (get policy_namespace_label desired.labels)) (
      last_iff _ (
        or_false
          (or_false
            (or_false (same_not ref.api_version "kubernaut.ai/v1alpha2")
              (same_not ref.kind "Kubernaut"))
            (same_not ref.name (get instance_label desired.labels)))
          (flip_false (is_true (is_controller ref.controller)))))
owner_iff existing desired (ref ∷ other ∷ refs) = (λ h. cc, λ h. absurd h)

-- OwnershipError lets the operator overwrite a NetworkPolicy exactly if it carries the label of the
-- managed policies, the three labels of ownership are those of the desired policy, it is not being
-- deleted, and it has no owner or only the instance as its controller, in the namespace that the
-- desired labels name.
pub policy_ownership_iff :
    (existing desired : Object)
    → (policy_ownership_error existing desired ≡ none) ↔ IsOwnPolicy existing desired
unfolding policy_ownership_error
policy_ownership_iff existing desired =
    let whole = first_iff _ (same_not (get managed_policy_label existing.labels) "true") (
      and_then_iff _ _
        (first_of_iff (managed_by_label ∷ policy_namespace_label ∷ instance_label ∷ [])
          λ label. last_iff _ (same_not (get label existing.labels) (get label desired.labels)))
        (first_iff _ (is_false existing.terminating)
          (owner_iff existing desired existing.owner_refs))) in
    (
      λ h.
          let (managed, rest) = whole.0 h in
          let (labels, live) = rest in
          record {
            is_managed = managed;
            same_manager = labels.0;
            same_namespace = labels.1.0;
            same_instance = labels.1.1.0;
            is_live = live.0;
            owner = live.1;
          },
      λ own. whole.1 (
        own.is_managed,
        (
          (own.same_manager, (own.same_namespace, (own.same_instance, tt))),
          (own.is_live, own.owner),
        ),
      ),
    )
