-- ===== src/Ensure/Converge.antt =====
-- The reconciliation of an object that is as the operator wrote it (ensureResourceChanged of
-- internal/controller/kubernaut_controller.go).
use kubernaut_operator.Base.{
  ℕ, String, ◌≡◌, refl, sym, ◌≢◌, ◌∙◌, inl, inr, Bool, true, false, [], ◌∷◌, some, ◌==◌, eq_refl,
  ap, if◌then◌else◌,
}
use kubernaut_operator.Base.Map.{get, get-insert}
use kubernaut_operator.Kube.Object.{Object, OwnerRef, Body, key_of}
use kubernaut_operator.Kube.Op.{ok}
use kubernaut_operator.Kube.Library.{Library, IsDeepEqual}
use kubernaut_operator.Kube.Client.{Client}
use kubernaut_operator.Kubernaut.{Kubernaut}
use kubernaut_operator.Ownership.{
  resource_ownership_error, stamp_ownership, api_group, owner_uid_key, owner_namespace_key,
}
use kubernaut_operator.Ownership.Contract.{
  IsConsistent, HasMarker, IsSoleOwner, IsAuthorized, by_marker, by_owner, resource_ownership_iff,
}
use kubernaut_operator.Ownership.Stamp.{stamp-HasMarker, stamp-IsConsistent, get-stamp}
use kubernaut_operator.Hash.{spec_hash, spec_hash_key}
use kubernaut_operator.Drift.{body_drifted}
use kubernaut_operator.Drift.Preserve.{Holds, no_drift}
use kubernaut_operator.Status.{State}
use kubernaut_operator.Ensure.{
  is_current, prepare, check_resource_ownership, read_or_create, update_if_changed,
  ensure_resource_changed,
}

-- The object as the API server gives it back after the operator wrote it: with the server's uid
-- and version, and a body that holds the desired one.
abbrev pub as_stored : Library → Kubernaut → Object → String → ℕ → Body → Object
as_stored lib kn obj uid version body = record (prepare lib kn obj) {
  uid = uid;
  resource_version = version;
  body = body;
}

-- The owner references that the builders leave: none, or the reference of this custom resource.
pub data IsOwnedBy (lib : Library) (kn : Kubernaut) (obj : Object) : Type 0 where
  no_refs : obj.owner_refs ≡ [] → IsOwnedBy lib kn obj
  own_ref :
      (ref : OwnerRef)
      → obj.owner_refs ≡ ref ∷ []
      → lib.has_controller (ref ∷ []) ≡ true
      → obj.namespace ≡ kn.namespace
      → lib.parse_group ref.api_version ≡ some api_group
      → ref.kind ≡ "Kubernaut"
      → ref.name ≡ kn.name
      → ref.controller ≡ some true
      → ref.uid ≡ kn.uid
      → IsOwnedBy lib kn obj

module _ (lib : Library) (kn : Kubernaut) (obj : Object) (uid : String) (version : ℕ)
    (body : Body) where
  stored-get :
      (k : String)
      → get k (as_stored lib kn obj uid version body).annotations ≡ (
          if spec_hash_key == k
          then spec_hash lib (stamp_ownership kn obj)
          else get k (stamp_ownership kn obj).annotations)
  unfolding prepare
  stored-get k = simp get-insert

  stored-IsConsistent : kn.namespace ≢ "" → IsConsistent kn (as_stored lib kn obj uid version body)
  stored-IsConsistent h =
      let namespace = stored-get owner_namespace_key ∙ get-stamp kn obj owner_namespace_key in
      let stamped = stamp-IsConsistent kn obj h in
      unfold prepare in
      record {
        namespace_fits = inr namespace;
        uid_has_namespace = inr (λ e. h (sym namespace ∙ e));
        managed_by_fits = stamped.managed_by_fits;
        part_of_fits = stamped.part_of_fits;
        instance_fits = stamped.instance_fits;
      }

  stored-HasMarker : HasMarker kn (as_stored lib kn obj uid version body)
  unfolding prepare
  stored-HasMarker =
      let m = stamp-HasMarker kn obj in
      record { managed_by = m.managed_by; part_of = m.part_of; instance_label = m.instance_label }

  stored-IsAuthorized :
      (b : Bool)
      → kn.namespace ≢ ""
      → obj.terminating ≡ false
      → lib.has_controller obj.owner_refs ≡ b
      → IsOwnedBy lib kn obj
      → IsAuthorized lib.parse_group kn (as_stored lib kn obj uid version body) b
  stored-IsAuthorized b named alive is_b (no_refs none_left) =
      by_marker (unfold prepare stamp_ownership in alive) (stored-IsConsistent named)
        (unfold prepare stamp_ownership in none_left) stored-HasMarker
  stored-IsAuthorized b named alive is_b
        (own_ref ref sole controls scope group kind name is_controller same_uid) =
      let owner : IsSoleOwner lib.parse_group kn (as_stored lib kn obj uid version body) b ref =
        record {
          sole = unfold prepare stamp_ownership in sole;
          may_own = sym is_b ∙ ap lib.has_controller sole ∙ controls;
          in_scope = unfold prepare stamp_ownership in scope;
          group = group;
          kind = kind;
          name = name;
          controls = is_controller;
          uid_fits = inr (stored-get owner_uid_key ∙ get-stamp kn obj owner_uid_key ∙ sym same_uid);
        } in
      by_owner (unfold prepare stamp_ownership in alive) (stored-IsConsistent named) ref owner
        (inl same_uid)

  stored-is_current :
      IsDeepEqual lib
      → Holds obj.body body
      → is_current lib
          (prepare lib kn obj)
          (spec_hash lib (stamp_ownership kn obj))
          (as_stored lib kn obj uid version body)
        ≡ true
  unfolding is_current prepare
  stored-is_current deep holds =
      let drift : body_drifted lib (stamp_ownership kn obj).body body ≡ false =
        unfold stamp_ownership in no_drift lib obj.body body deep holds in
      simp (get-insert, eq_refl, drift, deep.same_refs_refl)

check_passes :
    (lib : Library) {c : Client} (obj : Object) (b : Bool) (s : State c)
    → resource_ownership_error lib.parse_group s.cr obj b ≡ ok tt
    → check_resource_ownership lib obj b s ≡ (ok tt, s)
unfolding check_resource_ownership
check_passes lib obj b s e = rw e refl

update_skips :
    (lib : Library) {c : Client} (desired : Object) (hash : String) (existing : Object)
    (s : State c)
    → resource_ownership_error lib.parse_group s.cr existing (lib.has_controller desired.owner_refs)
      ≡ ok tt
    → is_current lib desired hash existing ≡ true
    → update_if_changed lib desired hash existing s ≡ (ok false, s)
unfolding update_if_changed
update_skips lib desired hash existing s owned current =
    rw (check_passes lib existing (lib.has_controller desired.owner_refs) s owned) (rw current refl)

-- Reconciling an object that the API server holds as the operator wrote it reports no change and
-- sends nothing but the read, whatever uid, version and server-owned content it got, so that the
-- reconciliation does not trigger itself. The conditions: the instance has a namespace, the desired
-- object is not terminating, it has no owner reference or the one of this instance, the stored body
-- holds the desired one, and the read returns the stored object.
pub ensure_idle :
    (lib : Library) (c : Client) (obj : Object) (s : State c) (uid : String) (version : ℕ)
    (body : Body) (w : c.World)
    → IsDeepEqual lib
    → s.cr.namespace ≢ ""
    → obj.terminating ≡ false
    → IsOwnedBy lib s.cr obj
    → Holds obj.body body
    → c.get (key_of (prepare lib s.cr obj)) s.world
      ≡ (ok (as_stored lib s.cr obj uid version body), w)
    → ensure_resource_changed lib obj s ≡ (ok false, record s { world = w })
unfolding ensure_resource_changed read_or_create
ensure_idle lib c obj s uid version body w deep named alive owned holds read =
    let stored = as_stored lib s.cr obj uid version body in
    let b = lib.has_controller (prepare lib s.cr obj).owner_refs in
    let auth : IsAuthorized lib.parse_group s.cr stored b =
      stored-IsAuthorized lib s.cr obj uid version body b named alive
        (unfold prepare stamp_ownership in refl) owned in
    rw read (
      update_skips lib (prepare lib s.cr obj) (spec_hash lib (stamp_ownership s.cr obj)) stored
        (record s { world = w }) ((resource_ownership_iff lib.parse_group s.cr stored b).1 auth)
        (stored-is_current lib s.cr obj uid version body deep holds))
