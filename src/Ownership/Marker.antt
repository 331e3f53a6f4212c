-- ===== src/Ownership/Marker.antt =====
-- The ownership marker as a proposition (ownershipMarkerMatches of internal/resources/ownership.go).
use kubernaut_operator.Base.{
  String, ◌≡◌, refl, ◌≢◌, ◌⊎◌, inl, inr, Bool, true, false, ◌&&◌, none, some, eq_iff, eq_refl,
  arith, is_some, Option-cases,
}
use kubernaut_operator.Base.Map.{lookup, get}
use kubernaut_operator.Kube.Object.{Object}
use kubernaut_operator.Kube.Op.{ok}
use kubernaut_operator.Kubernaut.{Kubernaut}
use kubernaut_operator.Ownership.{
  owner_namespace_key, owner_uid_key, managed_by_key, part_of_key, instance_key, common_labels,
  marker_label, ownership_marker_matches,
}

-- No annotation and no label names another owner.
pub record IsConsistent (kn : Kubernaut) (obj : Object) : Type 0 where
  pub namespace_fits :
      (get owner_namespace_key obj.annotations ≡ "")
      ⊎ (get owner_namespace_key obj.annotations ≡ kn.namespace)
  pub uid_has_namespace :
      (get owner_uid_key obj.annotations ≡ "") ⊎ (get owner_namespace_key obj.annotations ≢ "")
  pub managed_by_fits :
      (lookup managed_by_key obj.labels ≡ none)
      ⊎ (lookup managed_by_key obj.labels ≡ some "kubernaut-operator")
  pub part_of_fits :
      (lookup part_of_key obj.labels ≡ none) ⊎ (lookup part_of_key obj.labels ≡ some "kubernaut")
  pub instance_fits :
      (lookup instance_key obj.labels ≡ none) ⊎ (lookup instance_key obj.labels ≡ some kn.name)

-- The complete ownership marker: all three labels name this operator and this instance.
pub record HasMarker (kn : Kubernaut) (obj : Object) : Type 0 where
  pub managed_by : lookup managed_by_key obj.labels ≡ some "kubernaut-operator"
  pub part_of : lookup part_of_key obj.labels ≡ some "kubernaut"
  pub instance_label : lookup instance_key obj.labels ≡ some kn.name

abbrev pub all_labels : Object → Bool
all_labels obj =
    is_some (lookup managed_by_key obj.labels)
    && is_some (lookup part_of_key obj.labels)
    && is_some (lookup instance_key obj.labels)

expected_managed_by :
    (kn : Kubernaut) → get managed_by_key (common_labels kn) ≡ "kubernaut-operator"
unfolding get common_labels
expected_managed_by kn = refl

expected_part_of : (kn : Kubernaut) → get part_of_key (common_labels kn) ≡ "kubernaut"
unfolding get common_labels
expected_part_of kn = refl

expected_instance : (kn : Kubernaut) → get instance_key (common_labels kn) ≡ kn.name
unfolding get common_labels
expected_instance kn = refl

-- One label against the value that this operator and this instance expect.
label-cases :
    (kn : Kubernaut) (obj : Object) (key : String)
    → (marker_label kn obj key ≡ none)
      ⊎ ((lookup key obj.labels ≡ none) × (marker_label kn obj key ≡ some false))
      ⊎ ((lookup key obj.labels ≡ some (get key (common_labels kn)))
          × (marker_label kn obj key ≡ some true))
unfolding marker_label
label-cases kn obj key = elim (Option-cases (lookup key obj.labels)) [
  | inl e ↦ inr (inl (e, rw (e, marker_label) refl))
  | inr (v, e) ↦ ground (arith, eq_iff v (get key (common_labels kn)))
]

label_complete :
    (kn : Kubernaut) (obj : Object) (key : String)
    → (lookup key obj.labels ≡ none) ⊎ (lookup key obj.labels ≡ some (get key (common_labels kn)))
    → marker_label kn obj key ≡ some (is_some (lookup key obj.labels))
unfolding marker_label
label_complete kn obj key h = ground (arith, eq_refl (get key (common_labels kn)))

pub marker_sound :
    (kn : Kubernaut) (obj : Object) {complete : Bool}
    → ownership_marker_matches kn obj ≡ ok complete
    → IsConsistent kn obj × (complete ≡ true → HasMarker kn obj)
unfolding ownership_marker_matches
marker_sound kn obj h = ground (
  arith,
  eq_iff (get owner_namespace_key obj.annotations) "",
  eq_iff (get owner_namespace_key obj.annotations) kn.namespace,
  eq_iff (get owner_uid_key obj.annotations) "",
  label-cases kn obj managed_by_key,
  label-cases kn obj part_of_key,
  label-cases kn obj instance_key,
  expected_managed_by kn,
  expected_part_of kn,
  expected_instance kn,
)

pub marker_complete :
    (kn : Kubernaut) (obj : Object)
    → IsConsistent kn obj
    → ownership_marker_matches kn obj ≡ ok (all_labels obj)
unfolding ownership_marker_matches
marker_complete kn obj c = ground (
  arith,
  eq_iff (get owner_namespace_key obj.annotations) "",
  eq_iff (get owner_namespace_key obj.annotations) kn.namespace,
  eq_iff (get owner_uid_key obj.annotations) "",
  label_complete kn obj managed_by_key,
  label_complete kn obj part_of_key,
  label_complete kn obj instance_key,
  expected_managed_by kn,
  expected_part_of kn,
  expected_instance kn,
)
