-- ===== src/Ensure/Guarded.antt =====
-- Updates that carry the version that was read (ensureResourceChanged, createIfNotFound of
-- internal/controller/kubernaut_controller.go).
use kubernaut_operator.Base.{◌≡◌, refl, inl, inr, sym, Bool, List}
use kubernaut_operator.Base.Map.{lookup-copy}
use kubernaut_operator.Kube.Object.{OwnerRef, Object, key_of, Body, service}
use kubernaut_operator.Kube.Op.{ok}
use kubernaut_operator.Kube.Library.{Library}
use kubernaut_operator.Kube.Client.{Client, IsApiServer, updated}
use kubernaut_operator.Kubernaut.{Kubernaut}
use kubernaut_operator.Ownership.{resource_ownership_error, stamp_ownership}
use kubernaut_operator.Ownership.Contract.{IsAuthorized, HasMarker, resource_ownership_iff}
use kubernaut_operator.Ownership.Stamp.{stamp-HasMarker}
use kubernaut_operator.Drift.{preserve_body}
use kubernaut_operator.Status.{State}
use kubernaut_operator.Ensure.{replacement}
use kubernaut_operator.Ensure.Writes.{Extends, Allowed, Extends-eq, Extends-one}

-- What an update sends: the key of the desired object, the version that was read, and the marker.
pub record IsReplacement (kn : Kubernaut) (desired existing new : Object) : Type 0 where
  pub same_key : key_of new ≡ key_of desired
  pub same_version : new.resource_version ≡ existing.resource_version
  pub marked : HasMarker kn new

module _ (kn : Kubernaut) (desired existing : Object) where
  preserve-IsReplacement :
      (want live : Body)
      → desired.resource_version ≡ existing.resource_version
      → HasMarker kn desired
      → IsReplacement kn desired existing (preserve_body desired existing want live)
  preserve-IsReplacement (service want) (service live) v m = record {
    same_key = refl;
    same_version = v;
    marked = record {
      managed_by = simp (lookup-copy, m.managed_by);
      part_of = simp (lookup-copy, m.part_of);
      instance_label = simp (lookup-copy, m.instance_label);
    };
  }
  preserve-IsReplacement _ _ v m = record { same_key = refl; same_version = v; marked = m }

pub replacement-IsReplacement :
    (kn : Kubernaut) (desired existing : Object)
    → HasMarker kn desired
    → IsReplacement kn desired existing (replacement desired existing)
unfolding replacement
replacement-IsReplacement kn desired existing m =
    let versioned = record desired { resource_version = existing.resource_version } in
    let marked : HasMarker kn versioned = record {
      managed_by = m.managed_by;
      part_of = m.part_of;
      instance_label = m.instance_label;
    } in
    let r = preserve-IsReplacement kn versioned existing desired.body existing.body refl marked in
    record { same_key = r.same_key; same_version = r.same_version; marked = r.marked }

pub stamp-IsReplacement :
    (kn : Kubernaut) (existing : Object) (refs : List OwnerRef)
    → IsReplacement kn existing existing
        (stamp_ownership kn (record existing { owner_refs = refs }))
unfolding stamp_ownership
stamp-IsReplacement kn existing refs = record {
  same_key = refl;
  same_version = refl;
  marked = unfold stamp_ownership in stamp-HasMarker kn (record existing { owner_refs = refs });
}

module _ (lib : Library) {c : Client} (api : IsApiServer c) where
  -- A guarded update of a state that was read replaces that state and no other.
  pub guarded-writes :
      (kn : Kubernaut) (b : Bool) (existing new : Object) (s : State c)
      → c.Observed s.world existing
      → resource_ownership_error lib.parse_group kn existing b ≡ ok tt
      → IsReplacement kn existing existing new
      → Extends (Allowed lib kn) (c.history s.world) (c.history (c.update new s.world).1)
  guarded-writes kn b existing new s seen owned r = elim (api.update_writes new s.world) [
    | inl e ↦ Extends-eq e
    | inr (old, e, only) ↦
        let is_old : existing ≡ old = only existing seen (sym r.same_key) (sym r.same_version) in
        let auth : IsAuthorized lib.parse_group kn old b =
          rw (← is_old) ((resource_ownership_iff lib.parse_group kn existing b).0 owned) in
        Extends-one {P = Allowed lib kn} {w = updated old new} ((b, auth), r.marked) (inr e)
  ]
