-- ===== src/Ownership/Contract.antt =====
-- The ownership contract as a proposition (internal/resources/ownership.go).
use kubernaut_operator.Base.{
  sym, ◌||◌, if◌then◌else◌, Bool-cases, String, ◌≡◌, refl, ap, ◌↔◌, ◌⊎◌, inl, inr, Bool, true,
  false, Option, none, some, List, [], ◌∷◌, ◌==◌, eq_iff, eq_refl, arith,
}
use kubernaut_operator.Base.Map.{get}
use kubernaut_operator.Kube.Object.{Object, OwnerRef}
use kubernaut_operator.Kube.Op.{Result, ok, err, ownership, terminating}
use kubernaut_operator.Kubernaut.{Kubernaut}
use kubernaut_operator.Ownership.{
  api_group, owner_uid_key, is_group, verdict, owner_refs_match, ownership_marker_matches,
  sole_owner_matches, resource_owner_matches, resource_ownership_error,
}
pub use kubernaut_operator.Ownership.Marker.{IsConsistent, HasMarker}
use kubernaut_operator.Ownership.Marker.{marker_sound, marker_complete}

verdict_inv :
    (ending : Bool) (marker owner : Result Bool)
    → (if ending then err (ownership terminating) else verdict marker owner) ≡ ok tt
    → (ending ≡ false)
      × (complete : Bool) × (current : Bool) × (marker ≡ ok complete)
      × (owner ≡ ok current)
      × ((current || complete) ≡ true)
verdict_inv true marker owner h = cc
verdict_inv false (err e) owner h = cc
verdict_inv false (ok complete) (err e) h = cc
verdict_inv false (ok complete) (ok current) h = (refl, complete, current, refl, refl, ground arith)

owner_or_marker :
    (kn : Kubernaut) (obj : Object) (ref : OwnerRef) {current complete : Bool}
    → current ≡ (ref.uid == kn.uid)
    → (complete ≡ true → HasMarker kn obj)
    → (current || complete) ≡ true
    → (ref.uid ≡ kn.uid) ⊎ HasMarker kn obj
owner_or_marker kn obj ref {current = true} e marked either =
    inl ((eq_iff ref.uid kn.uid).0 (sym e))
owner_or_marker kn obj ref {current = false} e marked either = inr (marked either)

module _ (parse_group : String → Option String) where
  -- The only owner reference is a controlling one of a Kubernaut of this name, in its namespace.
  pub record IsSoleOwner (kn : Kubernaut) (obj : Object) (controller_owned : Bool) (ref : OwnerRef)
      : Type 0 where
    pub sole : obj.owner_refs ≡ ref ∷ []
    pub may_own : controller_owned ≡ true
    pub in_scope : obj.namespace ≡ kn.namespace
    pub group : parse_group ref.api_version ≡ some api_group
    pub kind : ref.kind ≡ "Kubernaut"
    pub name : ref.name ≡ kn.name
    pub controls : ref.controller ≡ some true
    pub uid_fits :
        (get owner_uid_key obj.annotations ≡ "") ⊎ (get owner_uid_key obj.annotations ≡ ref.uid)

  -- The object is alive, nothing on it names another owner, and either it has no owner reference
  -- and the complete marker, or one valid owner reference with this uid or the complete marker.
  pub data IsAuthorized (kn : Kubernaut) (obj : Object) (controller_owned : Bool) : Type 0 where
    by_marker :
        obj.terminating ≡ false
        → IsConsistent kn obj
        → obj.owner_refs ≡ []
        → HasMarker kn obj
        → IsAuthorized kn obj controller_owned
    by_owner :
        obj.terminating ≡ false
        → IsConsistent kn obj
        → (ref : OwnerRef) → IsSoleOwner kn obj controller_owned ref
        → (ref.uid ≡ kn.uid) ⊎ HasMarker kn obj
        → IsAuthorized kn obj controller_owned

  group-cases : (o : Option String) → is_group o ≡ true → o ≡ some api_group
  group-cases none h = cc
  group-cases (some g) h = ap some ((eq_iff g api_group).0 h)

  sole_sound :
      (kn : Kubernaut) (obj : Object) (ref : OwnerRef) {current : Bool}
      → obj.owner_refs ≡ ref ∷ []
      → obj.namespace ≡ kn.namespace
      → sole_owner_matches parse_group kn obj ref ≡ ok current
      → IsSoleOwner kn obj true ref × (current ≡ (ref.uid == kn.uid))
  unfolding sole_owner_matches
  sole_sound kn obj ref sole scope h = ground (
    arith,
    group-cases (parse_group ref.api_version),
    eq_iff ref.kind "Kubernaut",
    eq_iff ref.name kn.name,
    eq_iff (get owner_uid_key obj.annotations) "",
    eq_iff (get owner_uid_key obj.annotations) ref.uid,
  )

  sole_complete :
      (kn : Kubernaut) (obj : Object) (c : Bool) (ref : OwnerRef)
      → IsSoleOwner kn obj c ref
      → sole_owner_matches parse_group kn obj ref ≡ ok (ref.uid == kn.uid)
  unfolding sole_owner_matches
  sole_complete kn obj c ref o = ground (
    arith,
    eq_refl api_group,
    eq_iff ref.kind "Kubernaut",
    eq_iff ref.name kn.name,
    eq_iff (get owner_uid_key obj.annotations) "",
    eq_iff (get owner_uid_key obj.annotations) ref.uid,
  )

  refs_sound :
      (kn : Kubernaut) (obj : Object) (c : Bool) (refs : List OwnerRef) {current : Bool}
      → obj.owner_refs ≡ refs
      → owner_refs_match parse_group kn obj c refs ≡ ok current
      → ((refs ≡ []) × (current ≡ false))
        ⊎ ((ref : OwnerRef) × IsSoleOwner kn obj c ref × (current ≡ (ref.uid == kn.uid)))
  unfolding owner_refs_match
  refs_sound kn obj c [] e h = inl (refl, ground arith)
  refs_sound kn obj false (ref ∷ []) e h = cc
  refs_sound kn obj true (ref ∷ []) e h = elim (Bool-cases (obj.namespace == kn.namespace)) [
    | inl same ↦
        let (owner, is_current) =
          sole_sound kn obj ref e ((eq_iff obj.namespace kn.namespace).0 same) (rw same at h) in
        inr (ref, owner, is_current)
    | inr other ↦ ground arith
  ]
  refs_sound kn obj c (ref ∷ other ∷ refs) e h = cc

  resource_ownership_sound :
      (kn : Kubernaut) (obj : Object) (c : Bool)
      → resource_ownership_error parse_group kn obj c ≡ ok tt
      → IsAuthorized kn obj c
  unfolding resource_ownership_error resource_owner_matches
  resource_ownership_sound kn obj c h =
      let (alive, complete, current, hm, ho, either) =
        verdict_inv obj.terminating (ownership_marker_matches kn obj)
          (owner_refs_match parse_group kn obj c obj.owner_refs) h in
      let (consistent, marked) = marker_sound kn obj hm in
      elim (refs_sound kn obj c obj.owner_refs refl ho) [
        | inl (none_left, off) ↦ by_marker alive consistent none_left (marked (ground arith))
        | inr (ref, owner, is_current) ↦
            by_owner alive consistent ref owner
              (owner_or_marker kn obj ref is_current marked either)
      ]

  resource_ownership_complete :
      (kn : Kubernaut) (obj : Object) (c : Bool)
      → IsAuthorized kn obj c
      → resource_ownership_error parse_group kn obj c ≡ ok tt
  unfolding resource_ownership_error resource_owner_matches owner_refs_match
  resource_ownership_complete kn obj c (by_marker alive consistent no_refs marked) =
      ground (arith, marker_complete kn obj consistent)
  resource_ownership_complete kn obj c (by_owner alive consistent ref owner either) = ground (
    arith,
    marker_complete kn obj consistent,
    sole_complete kn obj c ref owner,
    eq_iff ref.uid kn.uid,
    eq_iff obj.namespace kn.namespace,
  )

  -- An existing object may be written exactly when the contract authorizes it: it is not
  -- terminating, no annotation or label names another owner, and it has either no owner reference
  -- and the complete marker, or a single valid controlling reference with this uid or the marker.
  pub resource_ownership_iff :
      (kn : Kubernaut) (obj : Object) (controller_owned : Bool)
      → (resource_ownership_error parse_group kn obj controller_owned ≡ ok tt)
        ↔ IsAuthorized kn obj controller_owned
  resource_ownership_iff kn obj c =
      (resource_ownership_sound kn obj c, resource_ownership_complete kn obj c)
