-- ===== src/Ensure/Deletion.antt =====
-- The writes of deleteIfExists (internal/controller/kubernaut_controller.go) against the ownership
-- contract.
use kubernaut_operator.Base.{◌≡◌, refl, ap, sym, inl, inr, Bool, not, ◌&&◌, arith, Bool-cases, ◌==◌}
use mathlib.Core.Path.{subst}
use kubernaut_operator.Kube.Object.{Object, key_of}
use kubernaut_operator.Kube.Op.{Result-cases, Result, ok, err, is_not_found}
use kubernaut_operator.Kube.Library.{Library}
use kubernaut_operator.Kube.Client.{Client, IsApiServer, deleted}
use kubernaut_operator.Ownership.{resource_ownership_error}
use kubernaut_operator.Ownership.Contract.{IsAuthorized, resource_ownership_iff}
use kubernaut_operator.Status.{State}
use kubernaut_operator.Ensure.{deleted_or_gone, delete_verdict, delete_if_owned, delete_if_exists}
use kubernaut_operator.Ensure.Writes.{
  Extends, same, Removal, Extends-trans, Extends-eq, Extends-one,
}

module _ (lib : Library) {c : Client} (api : IsApiServer c) where
  deleted_or_gone-world :
      (r : Result (Unit {0})) (s : State c) → (deleted_or_gone lib r s).1.world ≡ s.world
  deleted_or_gone-world (ok u) s = refl
  deleted_or_gone-world (err e) s = ground arith

  delete_verdict-world :
      (live : Object) (u : Unit {0}) (s : State c)
      → (delete_verdict lib live (ok u) s).1.world ≡ (c.delete live s.world).1
  delete_verdict-world live u s = deleted_or_gone-world (c.delete live s.world).0 _

  deletion-writes :
      (b : Bool) (live : Object) (s : State c)
      → c.Observed s.world live
      → resource_ownership_error lib.parse_group s.cr live b ≡ ok tt
      → Extends
          (Removal lib s.cr (key_of live))
          (c.history s.world)
          (c.history (c.delete live s.world).1)
  deletion-writes b live s seen owned = elim (api.delete_writes live s.world) [
    | inl e ↦ Extends-eq e
    | inr (old, e, only) ↦
        let is_old : live ≡ old = only live seen refl refl refl in
        let auth : IsAuthorized lib.parse_group s.cr old b =
          rw (← is_old) ((resource_ownership_iff lib.parse_group s.cr live b).0 owned) in
        Extends-one {P = Removal lib s.cr (key_of live)} {w = deleted old}
          ((b, auth), ap key_of (sym is_old)) (inr e)
  ]

  delete_if_owned-writes :
      (live : Object) (s : State c)
      → c.Observed s.world live
      → Extends
          (Removal lib s.cr (key_of live))
          (c.history s.world)
          (c.history (delete_if_owned lib live s).1.world)
  unfolding delete_if_owned
  delete_if_owned-writes live s seen =
      let b = not (live.namespace == "") && live.namespace == s.cr.namespace in
      elim (Result-cases (resource_ownership_error lib.parse_group s.cr live b)) [
        | inl (u, e) ↦ rw (e, delete_verdict-world live u s) (deletion-writes b live s seen e)
        | inr (x, e) ↦ rw e same
      ]

  -- Deleting an object removes, whatever the other writers do, only a state that the contract
  -- authorizes, of the object with the same type, namespace and name, and writes nothing else. This
  -- holds for every outcome, errors included.
  pub delete_if_exists_safe :
      (obj : Object) (s : State c)
      → Extends
          (Removal lib s.cr (key_of obj))
          (c.history s.world)
          (c.history (delete_if_exists lib obj s).1.world)
  unfolding delete_if_exists
  delete_if_exists_safe obj s =
      let k = key_of obj in
      let w = (c.get_live k s.world).1 in
      let ext : Extends (Removal lib s.cr k) (c.history s.world) (c.history w) =
        Extends-eq (api.get_live_reads k s.world) in
      elim (Result-cases (c.get_live k s.world).0) [
        | inl (live, e) ↦
            let (seen, same_key) = api.get_live_shows k s.world live e in
            rw e (
              Extends-trans ext (
                subst
                  (λ j.
                    Extends (Removal lib s.cr j) (c.history w)
                      (c.history (delete_if_owned lib live (record s { world = w })).1.world))
                  same_key (delete_if_owned-writes live (record s { world = w }) seen)))
        | inr (x, e) ↦
            rw e (elim (Bool-cases (is_not_found x)) [ inl y ↦ rw y ext | inr n ↦ rw n ext ])
      ]

  deleted_or_gone-cr : (r : Result (Unit {0})) (s : State c) → (deleted_or_gone lib r s).1.cr ≡ s.cr
  deleted_or_gone-cr (ok u) s = refl
  deleted_or_gone-cr (err e) s = ground arith

  delete_verdict-cr :
      (live : Object) (r : Result (Unit {0})) (s : State c)
      → (delete_verdict lib live r s).1.cr ≡ s.cr
  delete_verdict-cr live (ok u) s =
      let (r, w) = c.delete live s.world in deleted_or_gone-cr r (record s { world = w })
  delete_verdict-cr live (err e) s = refl

  -- A deletion leaves the custom resource as it was.
  pub delete_if_exists-cr : (obj : Object) (s : State c) → (delete_if_exists lib obj s).1.cr ≡ s.cr
  unfolding delete_if_exists delete_if_owned
  delete_if_exists-cr obj s =
      let (r, w) = c.get_live (key_of obj) s.world in
      elim (Result-cases r) [
        | inl (live, e) ↦ rw e (delete_verdict-cr live _ _)
        | inr (x, e) ↦
            rw e (elim (Bool-cases (is_not_found x)) [ inl y ↦ rw y refl | inr n ↦ rw n refl ])
      ]
