-- ===== src/Ensure/Reads.antt =====
-- What the ownership check and the shared read-or-create of the ensure operations leave behind
-- (internal/controller/ownership.go, internal/controller/kubernaut_controller.go).
use kubernaut_operator.Base.{◌≡◌, refl, ◌⊎◌, inl, inr, Bool, arith, Bool-cases}
use kubernaut_operator.Kube.Object.{Object, Key, key_of}
use kubernaut_operator.Kube.Op.{
  Result-cases, Error, Result, ok, err, wrapped, is_not_found, is_already_exists,
}
use kubernaut_operator.Kube.Library.{Library}
use kubernaut_operator.Kube.Client.{Client, IsApiServer, created}
use kubernaut_operator.Kubernaut.{Kubernaut, Status}
use kubernaut_operator.Ownership.{resource_ownership_error}
use kubernaut_operator.Ownership.Contract.{HasMarker}
use kubernaut_operator.Status.{State, patch_status}
use kubernaut_operator.Ensure.{
  Outcome, found, conflict_status, check_resource_ownership, record_conflict, read_raced,
  create_or_read_existing, read_or_create,
}
use kubernaut_operator.Ensure.Writes.{Allowed, Extends, Extends-trans, Extends-eq, Extends-one}

module _ (lib : Library) {c : Client} (api : IsApiServer c) where
  -- A status patch writes no object.
  pub patch_status-history :
      (change : Kubernaut → Status) (s : State c)
      → c.history (patch_status change s).1.world ≡ c.history s.world
  unfolding patch_status
  patch_status-history change s =
      ground (arith, api.patch_reads s.cr (record s.cr { status = change s.cr }) s.world)

  record_conflict-history :
      (e : Error) (s : State c) → c.history (record_conflict lib e s).world ≡ c.history s.world
  unfolding record_conflict
  record_conflict-history e s = ground (arith, patch_status-history (conflict_status lib e) s)

  -- The check either passes and changes nothing, or fails and writes no object.
  pub check-cases :
      (obj : Object) (b : Bool) (s : State c)
      → ((resource_ownership_error lib.parse_group s.cr obj b ≡ ok tt)
          × (check_resource_ownership lib obj b s ≡ (ok tt, s)))
        ⊎ ((e : Error) × ((check_resource_ownership lib obj b s).0 ≡ err e)
            × (c.history (check_resource_ownership lib obj b s).1.world ≡ c.history s.world))
  unfolding check_resource_ownership
  check-cases obj b s = elim (Result-cases (resource_ownership_error lib.parse_group s.cr obj b)) [
    | inl (u, e) ↦ inl (e, rw e refl)
    | inr (x, e) ↦ inr (wrapped "ownership check" x, rw e refl, rw e (record_conflict-history _ _))
  ]

module _ (lib : Library) {c : Client} (api : IsApiServer c) (kn : Kubernaut) where
  -- What a read-or-create leaves: only allowed writes, the same custom resource, and for an object
  -- that was found a state of it that the server stored.
  pub record IsRead (k : Key) (before : State c) (out : Result Outcome × State c) : Type 0 where
    pub writes : Extends (Allowed lib kn) (c.history before.world) (c.history out.1.world)
    pub same_cr : out.1.cr ≡ before.cr
    pub shows :
        (existing : Object)
        → out.0 ≡ ok (found existing)
        → c.Observed out.1.world existing × (key_of existing ≡ k)

  -- The shared last part: the object that `k` showed in the world `w`.
  shown-IsRead :
      (k : Key) (s : State c) (w : c.World) (o : Object)
      → Extends (Allowed lib kn) (c.history s.world) (c.history w)
      → c.Observed w o × (key_of o ≡ k)
      → IsRead k s (ok (found o), record s { world = w })
  shown-IsRead k s w o ext shown = record {
    writes = ext;
    same_cr = refl;
    shows = λ x h. let same_o : o ≡ x = cc in rw same_o at shown;
  }

  nothing-IsRead :
      (k : Key) (s : State c) (w : c.World) (e : Error)
      → Extends (Allowed lib kn) (c.history s.world) (c.history w)
      → IsRead k s (err e, record s { world = w })
  nothing-IsRead k s w e ext = record { writes = ext; same_cr = refl; shows = λ x h. cc }

  created-writes :
      (obj : Object) (s : State c)
      → HasMarker kn obj
      → Extends (Allowed lib kn) (c.history s.world) (c.history (c.create obj s.world).1)
  created-writes obj s marked =
      Extends-one {P = Allowed lib kn} {w = created obj} marked (api.create_writes obj s.world)

  IsRead-after :
      (k : Key) (s : State c) (w : c.World) (out : Result Outcome × State c)
      → Extends (Allowed lib kn) (c.history s.world) (c.history w)
      → IsRead k (record s { world = w }) out
      → IsRead k s out
  IsRead-after k s w out ext r = record {
    writes = Extends-trans ext r.writes;
    same_cr = r.same_cr;
    shows = r.shows;
  }

  read_raced-IsRead : (obj : Object) (s : State c) → IsRead (key_of obj) s (read_raced lib obj s)
  unfolding read_raced
  read_raced-IsRead obj s =
      let k = key_of obj in
      let ext : Extends (Allowed lib kn) (c.history s.world) (c.history (c.get_live k s.world).1) =
        Extends-eq (api.get_live_reads k s.world) in
      elim (Result-cases (c.get_live k s.world).0) [
        | inl (o, e) ↦
            rw e
              (shown-IsRead k s (c.get_live k s.world).1 o ext (api.get_live_shows k s.world o e))
        | inr (x, e) ↦ rw e (nothing-IsRead k s (c.get_live k s.world).1 _ ext)
      ]

  create_or_read_existing-IsRead :
      (obj : Object) (s : State c)
      → HasMarker kn obj
      → IsRead (key_of obj) s (create_or_read_existing lib obj s)
  unfolding create_or_read_existing
  create_or_read_existing-IsRead obj s marked =
      let ext = created-writes obj s marked in
      elim (Result-cases (c.create obj s.world).0) [
        | inl (o, e) ↦ rw e (record { writes = ext; same_cr = refl; shows = λ x h. cc })
        | inr (x, e) ↦ rw e (elim (Bool-cases (is_already_exists x)) [
          | inl raced ↦
              rw raced (
                IsRead-after (key_of obj) s (c.create obj s.world).1 _ ext
                  (read_raced-IsRead obj _))
          | inr other ↦ rw other (nothing-IsRead (key_of obj) s (c.create obj s.world).1 x ext)
        ])
      ]

  pub read_or_create-IsRead :
      (obj : Object) (s : State c)
      → HasMarker kn obj
      → IsRead (key_of obj) s (read_or_create lib obj s)
  unfolding read_or_create
  read_or_create-IsRead obj s marked =
      let k = key_of obj in
      let w = (c.get k s.world).1 in
      let ext : Extends (Allowed lib kn) (c.history s.world) (c.history w) =
        Extends-eq (api.get_reads k s.world) in
      elim (Result-cases (c.get k s.world).0) [
        | inl (o, e) ↦ rw e (shown-IsRead k s w o ext (api.get_shows k s.world o e))
        | inr (x, e) ↦ rw e (elim (Bool-cases (is_not_found x)) [
          | inl missing ↦
              rw missing (IsRead-after k s w _ ext (create_or_read_existing-IsRead obj _ marked))
          | inr other ↦ rw other (nothing-IsRead k s w (wrapped "getting" x) ext)
        ])
      ]
