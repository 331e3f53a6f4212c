-- ===== src/Ensure/Safety.antt =====
-- The writes of ensureResourceChanged (internal/controller/kubernaut_controller.go) against the
-- ownership contract.
use kubernaut_operator.Base.{String, ◌≡◌, refl, inl, inr, sym, ◌∙◌, Bool-cases}
use mathlib.Core.Path.{subst}
use kubernaut_operator.Kube.Object.{Object, key_of}
use kubernaut_operator.Kube.Op.{Result-cases, Result, ok, err, continue}
use kubernaut_operator.Kube.Library.{Library}
use kubernaut_operator.Kube.Client.{Client, IsApiServer}
use kubernaut_operator.Kubernaut.{Kubernaut}
use kubernaut_operator.Ownership.{stamp_ownership}
use kubernaut_operator.Ownership.Contract.{HasMarker}
use kubernaut_operator.Ownership.Stamp.{stamp-HasMarker}
use kubernaut_operator.Hash.{spec_hash}
use kubernaut_operator.Status.{State}
use kubernaut_operator.Ensure.{
  Outcome, made, found, read_or_create, after_read, is_current, replacement, prepare, send_update,
  update_if_changed, ensure_resource_changed,
}
use kubernaut_operator.Ensure.Writes.{Extends, same, Allowed, Extends-trans, Extends-eq}
use kubernaut_operator.Ensure.Reads.{check-cases, IsRead, read_or_create-IsRead}
use kubernaut_operator.Ensure.Guarded.{replacement-IsReplacement, guarded-writes}

module _ (lib : Library) {c : Client} (api : IsApiServer c) where
  send_update-world :
      (new : Object) (s : State c) → (send_update lib new s).1.world ≡ (c.update new s.world).1
  unfolding send_update
  send_update-world new s = elim (Result-cases (c.update new s.world).0) [
    | inl (o, e) ↦ rw e refl
    | inr (x, e) ↦ rw e refl
  ]

  update_if_changed-writes :
      (desired : Object) (hash : String) (existing : Object) (s : State c)
      → HasMarker s.cr desired
      → c.Observed s.world existing
      → key_of existing ≡ key_of desired
      → Extends
          (Allowed lib s.cr)
          (c.history s.world)
          (c.history (update_if_changed lib desired hash existing s).1.world)
  unfolding update_if_changed
  update_if_changed-writes desired hash existing s m seen k =
      let b = lib.has_controller desired.owner_refs in
      elim (check-cases lib api existing b s) [
        | inl (owned, passed) ↦
            rw passed (elim (Bool-cases (is_current lib desired hash existing)) [
              | inl current ↦ rw current same
              | inr stale ↦
                  let r = replacement-IsReplacement s.cr desired existing m in
                  rw (stale, send_update-world)
                    (guarded-writes lib api s.cr b existing (replacement desired existing) s seen
                      owned
                      (record {
                        same_key = r.same_key ∙ sym k;
                        same_version = r.same_version;
                        marked = r.marked;
                      }))
            ])
        | inr (e, failed, unchanged) ↦ rw failed (Extends-eq unchanged)
      ]

  prepare-HasMarker : (kn : Kubernaut) (obj : Object) → HasMarker kn (prepare lib kn obj)
  unfolding prepare
  prepare-HasMarker kn obj =
      let m = stamp-HasMarker kn obj in
      record { managed_by = m.managed_by; part_of = m.part_of; instance_label = m.instance_label }

  after_read-writes :
      (desired : Object) (hash : String) (s t : State c) (r : Result Outcome)
      → HasMarker s.cr desired
      → IsRead lib api s.cr (key_of desired) s (r, t)
      → Extends
          (Allowed lib s.cr)
          (c.history s.world)
          (c.history (continue r (after_read lib desired hash) t).1.world)
  after_read-writes desired hash s t (err e) m read = read.writes
  after_read-writes desired hash s t (ok (made o)) m read = read.writes
  after_read-writes desired hash s t (ok (found existing)) m read =
      let (seen, k) = read.shows existing refl in
      let later = update_if_changed-writes desired hash existing t (rw read.same_cr m) seen k in
      Extends-trans read.writes (
        subst
          (λ k.
            Extends (Allowed lib k) (c.history t.world)
              (c.history (update_if_changed lib desired hash existing t).1.world))
          read.same_cr later)

  -- Creating or updating an object writes only what the contract allows, whatever the other
  -- writers do: a new object with the marker of this instance, or one with that marker in place of
  -- a state that the contract authorizes. This holds for every outcome, errors included.
  pub ensure_resource_safe :
      (obj : Object) (s : State c)
      → Extends
          (Allowed lib s.cr)
          (c.history s.world)
          (c.history (ensure_resource_changed lib obj s).1.world)
  unfolding ensure_resource_changed
  ensure_resource_safe obj s =
      let desired = prepare lib s.cr obj in
      let (r, t) = read_or_create lib desired s in
      after_read-writes desired (spec_hash lib (stamp_ownership s.cr obj)) s t r
        (prepare-HasMarker s.cr obj)
        (read_or_create-IsRead lib api s.cr desired s (prepare-HasMarker s.cr obj))
