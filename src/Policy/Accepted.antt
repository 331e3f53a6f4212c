-- ===== src/Policy/Accepted.antt =====
-- The objects that are rendered, and their ownership (Render of internal/policy/render.go).
use kubernaut_operator.Base.{
  at_least_iff, at_most_iff, IsAtLeast, IsAtMost, String, ◌≡◌, ◌⊎◌, inl, inr, refl, Bool-cases,
  false, ◌||◌, Option, none, some, List, [], ◌∷◌, ◌==◌, All,
}
use mathlib.Core.Path.{subst}
use kubernaut_operator.Base.Map.{get, lookup}
use kubernaut_operator.Kube.Object.{OwnerRef, Object}
use kubernaut_operator.Kube.Op.{Error, ok}
use kubernaut_operator.Validation.Checks.{◌&◌, IsPresent}
use kubernaut_operator.Validation.Accept.{
  first_iff, last_iff, and_then_iff, first_of_iff, or_false, differs,
}
use kubernaut_operator.Policy.Owner.{policy_ownership_error}
use kubernaut_operator.Policy.Owned.{IsInstanceRef, HasOwner, IsOwnPolicy, policy_ownership_iff}
use kubernaut_operator.Policy.Section.{Names}
use kubernaut_operator.Policy.Bounds.{AreScrapeSources, scrape_sources_iff}
use kubernaut_operator.Policy.Intent.{Intent}
use kubernaut_operator.Policy.Render.{
  PolicySpec, policy_object, policy_objects, with_instance, or_objects, render,
}

-- The object as the API server keeps it: with the labels and the namespace that were rendered, not
-- being deleted, and with no owner or the instance as its controller.
pub record IsStored (instance : String) (rendered stored : Object) : Type 0 where
  pub same_labels : stored.labels ≡ rendered.labels
  pub same_namespace : stored.namespace ≡ rendered.namespace
  pub is_live : stored.terminating ≡ false
  pub owner :
      (stored.owner_refs ≡ [])
      ⊎ ((ref : OwnerRef) × (stored.owner_refs ≡ ref ∷ []) × IsInstanceRef instance ref)

-- What is rendered is accepted when it is read back.
abbrev pub IsReadBack : String → Object → Type 0
IsReadBack instance rendered =
    (stored : Object)
    → IsStored instance rendered stored
    → policy_ownership_error stored rendered ≡ none

module _ (encode : PolicySpec → String) (intent : Intent) where
  stored_owner :
      (component : String) (stored : Object)
      → IsStored intent.instance_name (policy_object encode intent component) stored
      → HasOwner stored (policy_object encode intent component) stored.owner_refs
  unfolding get lookup
  stored_owner component stored s = elim s.owner [
    | inl e ↦ rw e tt
    | inr (ref, e, of_instance) ↦ rw e (s.same_namespace, of_instance)
  ]

  object_is_own :
      (component : String) (stored : Object)
      → IsStored intent.instance_name (policy_object encode intent component) stored
      → IsOwnPolicy stored (policy_object encode intent component)
  unfolding get lookup
  object_is_own component stored s = record {
    is_managed = rw s.same_labels refl;
    same_manager = rw s.same_labels refl;
    same_namespace = rw s.same_labels refl;
    same_instance = rw s.same_labels refl;
    is_live = s.is_live;
    owner = stored_owner component stored s;
  }

  objects_accepted :
      (components : List String)
      → All (IsReadBack intent.instance_name) (policy_objects encode intent components)
  unfolding policy_objects
  objects_accepted [] = tt
  objects_accepted (component ∷ components) =
      elim (Bool-cases (component == "authwebhook" || component == "console")) [
        | inl e ↦ rw e (objects_accepted components)
        | inr e ↦ rw e (
          λ stored s.
              (policy_ownership_iff stored (policy_object encode intent component)).1
                (object_is_own component stored s),
          objects_accepted components,
        )
      ]

-- What a rendering promises.
pub record IsRendering (names : Names) (intent : Intent) (objects : List Object) : Type 0 where
  pub in_namespace : IsPresent intent.namespace
  pub sources : AreScrapeSources names intent.scrape_sources
  pub ports : All (λ entry. IsAtLeast 1 entry.1 & IsAtMost 65535 entry.1) intent.metrics_ports
  pub read_back : All (IsReadBack (with_instance intent).instance_name) objects

rendered_objects :
    (o : Option Error) (found objects : List Object)
    → or_objects o found ≡ ok objects
    → (o ≡ none) × (found ≡ objects)
rendered_objects none found objects h = (refl, cc h)
rendered_objects (some e) found objects h = cc

-- If Render succeeds, the namespace is not empty, the scrape sources are valid, every metrics port is
-- from 1 to 65535, and OwnershipError accepts every rendered NetworkPolicy when it is read back: with
-- the labels and the namespace that were rendered, not being deleted, and with no owner or the
-- instance as its controller.
pub render_lem :
    (names : Names) (encode : PolicySpec → String) (intent : Intent) (objects : List Object)
    → render names encode intent ≡ ok objects
    → IsRendering names intent objects
unfolding render
render_lem names encode intent objects h =
    let (accepted, same) = rendered_objects _ _ objects h in
    let checks = first_iff _ (differs intent.namespace "") (
      and_then_iff _ _ (scrape_sources_iff names intent.scrape_sources) (
        first_of_iff intent.metrics_ports
          λ entry. last_iff _ (or_false (at_least_iff 1 entry.1) (at_most_iff 65535 entry.1)))) in
    let (present, (sources, ports)) = checks.0 accepted in
    record {
      in_namespace = present;
      sources = sources;
      ports = ports;
      read_back =
          subst (All (IsReadBack (with_instance intent).instance_name)) same
            (objects_accepted encode (with_instance intent) intent.components);
    }
