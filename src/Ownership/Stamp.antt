-- ===== src/Ownership/Stamp.antt =====
-- What `StampOwnership` writes and what it leaves (internal/resources/ownership.go).
use kubernaut_operator.Base.{
  String, ◌≡◌, sym, ◌∙◌, ◌∷◌, ◌≢◌, inr, Bool, false, Option, [], ◌==◌, arith, if◌then◌else◌,
  contains,
}
use kubernaut_operator.Base.Map.{lookup, get, get-insert, lookup-insert}
use kubernaut_operator.Kube.Object.{Object}
use kubernaut_operator.Kube.Op.{ok}
use kubernaut_operator.Kubernaut.{Kubernaut}
use kubernaut_operator.Ownership.{
  owner_namespace_key, owner_uid_key, marker_keys, resource_ownership_error, stamp_ownership,
}
use kubernaut_operator.Ownership.Contract.{
  IsConsistent, HasMarker, by_marker, by_owner, resource_ownership_iff,
}

module _ (kn : Kubernaut) (obj : Object) where
  pub stamp-HasMarker : HasMarker kn (stamp_ownership kn obj)
  unfolding stamp_ownership
  stamp-HasMarker = record {
    managed_by = simp lookup-insert;
    part_of = simp lookup-insert;
    instance_label = simp lookup-insert;
  }

  pub get-stamp :
      (k : String)
      → get k (stamp_ownership kn obj).annotations ≡ (
          if owner_uid_key == k
          then kn.uid
          else if owner_namespace_key == k
          then kn.namespace
          else get k obj.annotations)
  unfolding stamp_ownership
  get-stamp k = simp get-insert

  pub stamp-IsConsistent : kn.namespace ≢ "" → IsConsistent kn (stamp_ownership kn obj)
  stamp-IsConsistent h = record {
    namespace_fits = inr (get-stamp owner_namespace_key);
    uid_has_namespace = inr (λ e. h (sym (get-stamp owner_namespace_key) ∙ e));
    managed_by_fits = inr stamp-HasMarker.managed_by;
    part_of_fits = inr stamp-HasMarker.part_of;
    instance_fits = inr stamp-HasMarker.instance_label;
  }

module _ (parse_group : String → Option String) (kn other : Kubernaut) (obj : Object) where
  -- An object that an instance with a namespace stamps is its own: if it is not terminating and has
  -- no owner reference, it passes the ownership check of every instance of the same name and
  -- namespace, so also of a reinstalled one with another uid.
  pub stamp-IsAuthorized :
      (controller_owned : Bool)
      → kn.namespace ≢ ""
      → other.name ≡ kn.name
      → other.namespace ≡ kn.namespace
      → obj.terminating ≡ false
      → obj.owner_refs ≡ []
      → resource_ownership_error parse_group other (stamp_ownership kn obj) controller_owned ≡ ok tt
  stamp-IsAuthorized c named same_name same_namespace alive no_refs =
      let here = stamp-HasMarker kn obj in
      let marked : HasMarker other (stamp_ownership kn obj) = record {
        managed_by = here.managed_by;
        part_of = here.part_of;
        instance_label = rw same_name here.instance_label;
      } in
      let consistent : IsConsistent other (stamp_ownership kn obj) = record {
        namespace_fits = inr (get-stamp kn obj owner_namespace_key ∙ sym same_namespace);
        uid_has_namespace = (stamp-IsConsistent kn obj named).uid_has_namespace;
        managed_by_fits = inr marked.managed_by;
        part_of_fits = inr marked.part_of;
        instance_fits = inr marked.instance_label;
      } in
      (resource_ownership_iff parse_group other (stamp_ownership kn obj) c).1 (
        by_marker (unfold stamp_ownership in alive) consistent (unfold stamp_ownership in no_refs)
          marked)

  consistent_excludes :
      kn.namespace ≢ ""
      → IsConsistent other (stamp_ownership kn obj)
      → (other.name ≡ kn.name) × (other.namespace ≡ kn.namespace)
  consistent_excludes named fits = ground (
    arith,
    fits.namespace_fits,
    fits.instance_fits,
    (stamp-HasMarker kn obj).instance_label,
    get-stamp kn obj owner_namespace_key,
  )

  -- The stamp of an instance with a namespace keeps every other instance out: whoever passes the
  -- ownership check on a stamped object
  -- has the name and the namespace of the instance that stamped it.
  stamp_excludes :
      (controller_owned : Bool)
      → kn.namespace ≢ ""
      → resource_ownership_error parse_group other (stamp_ownership kn obj) controller_owned ≡ ok tt
      → (other.name ≡ kn.name) × (other.namespace ≡ kn.namespace)
  stamp_excludes c named h =
      elim ((resource_ownership_iff parse_group other (stamp_ownership kn obj) c).0 h) [
        | by_marker alive fits no_refs marked ↦ consistent_excludes named fits
        | by_owner alive fits ref owner either ↦ consistent_excludes named fits
      ]

-- The stamp leaves a label whose key is not one of the three marker keys, and an annotation whose
-- key is not one of the two owner keys, as it was. The theorem takes one key that is none of them.
pub stamp_frame :
    (kn : Kubernaut) (obj : Object) (k : String)
    → contains marker_keys k ≡ false
    → contains (owner_namespace_key ∷ owner_uid_key ∷ []) k ≡ false
    → (lookup k (stamp_ownership kn obj).labels ≡ lookup k obj.labels)
      × (get k (stamp_ownership kn obj).annotations ≡ get k obj.annotations)
unfolding stamp_ownership contains
stamp_frame kn obj k labels annotations =
    (simp lookup-insert (ground arith), simp get-insert (ground arith))
