-- ===== src/Ensure/Repair.antt =====
-- The writes of createIfNotFound (internal/controller/kubernaut_controller.go) against the
-- ownership contract.
use kubernaut_operator.Base.{◌≡◌, refl, inl, inr, true, Bool-cases}
use mathlib.Core.Path.{subst}
use kubernaut_operator.Kube.Object.{Object, key_of}
use kubernaut_operator.Kube.Op.{Result-cases, Result, ok, err, continue}
use kubernaut_operator.Kube.Library.{Library}
use kubernaut_operator.Kube.Client.{Client, IsApiServer}
use kubernaut_operator.Ownership.{stamp_ownership}
use kubernaut_operator.Ownership.Stamp.{stamp-HasMarker}
use kubernaut_operator.Status.{State}
use kubernaut_operator.Ensure.{
  Outcome, made, found, read_or_create, repair_ownership, repair_if_found, create_if_not_found,
  ownership_metadata_matches,
}
use kubernaut_operator.Ensure.Writes.{Extends, same, Allowed, Extends-trans, Extends-eq}
use kubernaut_operator.Ensure.Reads.{check-cases, IsRead, read_or_create-IsRead}
use kubernaut_operator.Ensure.Guarded.{stamp-IsReplacement, guarded-writes}

module _ (lib : Library) {c : Client} (api : IsApiServer c) where
  repair-writes :
      (desired existing : Object) (s : State c)
      → c.Observed s.world existing
      → Extends
          (Allowed lib s.cr)
          (c.history s.world)
          (c.history (repair_ownership lib desired existing s).1.world)
  unfolding repair_ownership
  repair-writes desired existing s seen = elim (check-cases lib api existing true s) [
    | inl (owned, passed) ↦
        rw passed (elim (Bool-cases (ownership_metadata_matches lib desired existing)) [
          | inl current ↦ rw current same
          | inr stale ↦ rw stale (
              guarded-writes lib api s.cr true existing
                (stamp_ownership s.cr (record existing { owner_refs = desired.owner_refs })) s seen
                owned (stamp-IsReplacement s.cr existing desired.owner_refs))
        ])
    | inr (e, failed, unchanged) ↦ rw failed (Extends-eq unchanged)
  ]

  repair_if_found-world :
      (desired existing : Object) (s : State c)
      → (repair_if_found lib desired (found existing) s).1.world
        ≡ (repair_ownership lib desired existing s).1.world
  repair_if_found-world desired existing s =
      elim (Result-cases (repair_ownership lib desired existing s).0) [
        | inl (o, e) ↦ rw e refl
        | inr (x, e) ↦ rw e refl
      ]

  repair_if_found-writes :
      (desired : Object) (s t : State c) (r : Result Outcome)
      → IsRead lib api s.cr (key_of desired) s (r, t)
      → Extends
          (Allowed lib s.cr)
          (c.history s.world)
          (c.history (continue r (repair_if_found lib desired) t).1.world)
  repair_if_found-writes desired s t (err e) read = read.writes
  repair_if_found-writes desired s t (ok (made o)) read = read.writes
  repair_if_found-writes desired s t (ok (found existing)) read =
      let later = repair-writes desired existing t (read.shows existing refl).0 in
      rw repair_if_found-world (
        Extends-trans read.writes (
          subst
            (λ k.
              Extends (Allowed lib k) (c.history t.world)
                (c.history (repair_ownership lib desired existing t).1.world))
            read.same_cr later))

  -- Creating the migration Job, or repairing the ownership of the one that is there, writes only
  -- what the contract allows, whatever the other writers do.
  pub create_if_not_found_safe :
      (obj : Object) (s : State c)
      → Extends
          (Allowed lib s.cr)
          (c.history s.world)
          (c.history (create_if_not_found lib obj s).1.world)
  unfolding create_if_not_found
  create_if_not_found_safe obj s = elim (Result-cases (lib.set_controller_reference s.cr obj)) [
    | inr (x, e) ↦ rw e same
    | inl (owned, e) ↦
        let desired = stamp_ownership s.cr owned in
        let (r, t) = read_or_create lib desired s in
        rw e (
          repair_if_found-writes desired s t r
            (read_or_create-IsRead lib api s.cr desired s (stamp-HasMarker s.cr owned)))
  ]
