-- ===== src/Ownership.antt =====
-- Who may write an object (internal/resources/ownership.go, CommonLabels of
-- internal/resources/common.go). The parse of an API version into its group is that of
-- apimachinery, a parameter: `none` where the text does not parse.
pub mod Marker
pub mod Contract
pub mod Stamp
use kubernaut_operator.Base.{
  String, Bool, true, false, not, ◌&&◌, ◌||◌, Option, none, some, List, [], ◌∷◌, ◌==◌,
  if◌then◌else◌,
}
use kubernaut_operator.Base.Map.{Map, lookup, insert, copy, get}
use kubernaut_operator.Kube.Object.{Object, OwnerRef}
use kubernaut_operator.Kube.Op.{
  Conflict, terminating, namespace_differs, uid_lacks_namespace, label_differs, invalid_scope,
  foreign_owner, uid_contradicts, no_ownership, Result, ok, err, ownership, continue,
}
use kubernaut_operator.Kubernaut.{Kubernaut}

-- AnnotationOwnerNamespace
abbrev pub owner_namespace_key : String
owner_namespace_key = "kubernaut.ai/owner-namespace"

-- AnnotationOwnerUID
abbrev pub owner_uid_key : String
owner_uid_key = "kubernaut.ai/owner-uid"

abbrev pub managed_by_key : String
managed_by_key = "app.kubernetes.io/managed-by"

abbrev pub part_of_key : String
part_of_key = "app.kubernetes.io/part-of"

abbrev pub instance_key : String
instance_key = "app.kubernetes.io/instance"

-- kubernautv1alpha2.GroupVersion.Group
abbrev pub api_group : String
api_group = "kubernaut.ai"

-- CommonLabels
unfoldable pub common_labels : Kubernaut → Map String
common_labels kn =
    (managed_by_key, "kubernaut-operator")
    ∷ (part_of_key, "kubernaut")
    ∷ (instance_key, kn.name)
    ∷ []

-- The three keys that the ownership marker is made of.
abbrev pub marker_keys : List String
marker_keys = managed_by_key ∷ part_of_key ∷ instance_key ∷ []

abbrev pub is_true : Option Bool → Bool
is_true (some true) = true
is_true _ = false

abbrev pub is_group : Option String → Bool
is_group (some group) = group == api_group
is_group none = false

-- One round of the loop over the marker keys: `none` is the conflict that ends it, `some` says
-- whether the label is there.
unfoldable pub marker_label : Kubernaut → Object → String → Option Bool
unfolding common_labels lookup get
marker_label kn obj key = elim (lookup key obj.labels) [
  | none ↦ some false
  | some value ↦ if value == get key (common_labels kn) then some true else none
]

-- The loop of ownershipMarkerMatches; `complete` is its variable.
unfoldable pub marker_loop : Kubernaut → Object → Bool → List String → Result Bool
marker_loop kn obj complete [] = ok complete
marker_loop kn obj complete (key ∷ keys) = elim (marker_label kn obj key) [
  | none ↦ err (ownership label_differs)
  | some present ↦ marker_loop kn obj (complete && present) keys
]

-- ownershipMarkerMatches
unfoldable pub ownership_marker_matches : Kubernaut → Object → Result Bool
unfolding marker_loop
ownership_marker_matches kn obj =
    let namespace = get owner_namespace_key obj.annotations in
    if not (namespace == "") && not (namespace == kn.namespace)
    then err (ownership namespace_differs)
    else if not (get owner_uid_key obj.annotations == "") && namespace == ""
    then err (ownership uid_lacks_namespace)
    else marker_loop kn obj true marker_keys

abbrev verdict : Result Bool → Result Bool → Result (Unit {0})
verdict (err e) owner = err e
verdict (ok complete) (err e) = err e
verdict (ok complete) (ok current) =
    if current || complete then ok tt else err (ownership no_ownership)

module _ (parse_group : String → Option String) where
  -- The tests on the single reference.
  unfoldable pub sole_owner_matches : Kubernaut → Object → OwnerRef → Result Bool
  sole_owner_matches kn obj ref =
      if not (is_group (parse_group ref.api_version))
        || not (ref.kind == "Kubernaut")
        || not (ref.name == kn.name)
        || not (is_true ref.controller)
      then err (ownership foreign_owner)
      else let uid = get owner_uid_key obj.annotations in
        if not (uid == "") && not (uid == ref.uid)
        then err (ownership uid_contradicts)
        else ok (ref.uid == kn.uid)

  -- The tests on the number and the scope of the references.
  unfoldable pub owner_refs_match : Kubernaut → Object → Bool → List OwnerRef → Result Bool
  owner_refs_match kn obj controller_owned [] = ok false
  owner_refs_match kn obj controller_owned (ref ∷ []) =
      if not controller_owned || not (obj.namespace == kn.namespace)
      then err (ownership invalid_scope)
      else sole_owner_matches kn obj ref
  owner_refs_match kn obj controller_owned (ref ∷ other ∷ refs) = err (ownership invalid_scope)

  -- resourceOwnerMatches
  unfoldable pub resource_owner_matches : Kubernaut → Object → Bool → Result Bool
  resource_owner_matches kn obj controller_owned =
      owner_refs_match kn obj controller_owned obj.owner_refs

  -- ResourceOwnershipError; `ok` is the nil error.
  unfoldable pub resource_ownership_error : Kubernaut → Object → Bool → Result (Unit {0})
  resource_ownership_error kn obj controller_owned =
      if obj.terminating
      then err (ownership terminating)
      else verdict (ownership_marker_matches kn obj)
          (resource_owner_matches kn obj controller_owned)

-- StampOwnership
unfoldable pub stamp_ownership : Kubernaut → Object → Object
unfolding common_labels copy
stamp_ownership kn obj = record obj {
  labels = copy (common_labels kn) obj.labels;
  annotations =
      insert owner_uid_key kn.uid (insert owner_namespace_key kn.namespace obj.annotations);
}
