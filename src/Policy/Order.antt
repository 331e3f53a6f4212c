-- ===== src/Policy/Order.antt =====
-- The order of reconcileNetworkPolicies (internal/controller/kubernaut_controller.go): every desired
-- policy is in place before a stale one goes.
use kubernaut_operator.Base.{
  String, ◌≡◌, refl, ◌∙◌, ◌⊎◌, inl, inr, Bool, false, List, [], ◌∷◌, Bool-cases,
}
use mathlib.Core.Path.{subst}
use kubernaut_operator.Kube.Object.{Object, ServiceSpec}
use kubernaut_operator.Kube.Op.{
  Error, wrapped, Result, Result-cases, ok, err, is_ownership_conflict,
}
use kubernaut_operator.Kube.Library.{Library}
use kubernaut_operator.Kube.Client.{Client, IsApiServer, Write}
use kubernaut_operator.Kubernaut.{Kubernaut, failed}
use kubernaut_operator.Status.{State, patch_status}
use kubernaut_operator.Ensure.Writes.{Extends, same, Extends-trans, Extends-mono}
use kubernaut_operator.Ensure.Reads.{patch_status-history}
use kubernaut_operator.Policy.Section.{Names}
use kubernaut_operator.Policy.Render.{PolicySpec}
use kubernaut_operator.Policy.Apply.{with_hash, ensure_network_policy}
use kubernaut_operator.Policy.Guarded.{AllowedPolicy, ensure_network_policy_safe}
use kubernaut_operator.Policy.Prune.{policy_keys, prune_network_policies}
use kubernaut_operator.Policy.Stale.{Pruned, prune-writes}
use kubernaut_operator.Policy.Reconcile.{
  network_policy_status, failure_reason, applied, apply_policy, apply_policies, apply_rendered,
  rendered_policies, report_policies, reconcile_network_policies,
}

-- A write for one of the desired policies, with this instance as the owner.
abbrev pub Desired : Library → Kubernaut → List Object → Write → Type 0
Desired lib kn [] w = ⊥
Desired lib kn (o ∷ os) w =
    ((owned : Object) × (lib.set_controller_reference kn o ≡ ok owned)
      × AllowedPolicy (with_hash lib owned) w)
    ⊎ Desired lib kn os w

abbrev pub objects_of : Result (List Object) → List Object
objects_of (ok objects) = objects
objects_of (err e) = []

module _ (lib : Library) {c : Client} (api : IsApiServer c) where
  -- The report writes no object, and keeps a failure a failure.
  report_policies-history :
      (r : Result (Unit {0})) (s : State c)
      → c.history (report_policies lib r s).1.world ≡ c.history s.world
  unfolding report_policies
  report_policies-history (ok u) s = patch_status-history lib api _ s
  report_policies-history (err e) s =
      let change = network_policy_status lib false (failure_reason lib e) (failed "" e) in
      let kept = patch_status-history lib api change s in
      elim (Result-cases (patch_status change s).0) [
        | inl (u, p) ↦ rw p kept
        | inr (x, p) ↦ rw p kept
      ]

  report_policies-fails :
      (e : Error) (s : State c) → (x : Error) × ((report_policies lib {c = c} (err e) s).0 ≡ err x)
  unfolding report_policies
  report_policies-fails e s =
      let change = network_policy_status lib false (failure_reason lib e) (failed "" e) in
      elim (Result-cases (patch_status change s).0) [
        | inl (u, p) ↦ (e, rw p refl)
        | inr (x, p) ↦ (wrapped "patching NetworkPolicy status" x, rw p refl)
      ]

module _ (lib : Library) (same_spec same_labels : Object → Object → Bool) {c : Client}
    (api : IsApiServer c) where
  -- What a part of the reconciliation leaves: writes of `P` and the same custom resource.
  record IsPart (P : Write → Type 0) (before after : State c) : Type 0 where
    writes : Extends P (c.history before.world) (c.history after.world)
    same_cr : after.cr ≡ before.cr

  applied-frame :
      (r : Result (Unit {0})) (s : State c)
      → ((applied lib same_spec same_labels r s).1.world ≡ s.world)
        × ((applied lib same_spec same_labels r s).1.cr ≡ s.cr)
  applied-frame (ok u) s = (refl, refl)
  applied-frame (err e) s = elim (Bool-cases (is_ownership_conflict e)) [
    | inl y ↦ rw y (refl, refl)
    | inr n ↦ rw n (refl, refl)
  ]

  apply_policy-IsPart :
      (o : Object) (os : List Object) (s : State c)
      → IsPart (Desired lib s.cr (o ∷ os)) s (apply_policy lib same_spec same_labels o s).1
  unfolding apply_policy
  apply_policy-IsPart o os s = elim (Result-cases (lib.set_controller_reference s.cr o)) [
    | inr (x, e) ↦ rw e (record { writes = same; same_cr = refl })
    | inl (owned, e) ↦
        let run = ensure_network_policy lib same_spec same_labels c owned s.world in
        let (w, cr) = applied-frame run.0 (record s { world = run.1 }) in
        rw e (record {
          writes = rw w (
              Extends-mono (λ x h. inl (owned, e, h))
                (ensure_network_policy_safe lib same_spec same_labels api owned s.world));
          same_cr = cr;
        })
  ]

  apply_policies-IsPart :
      (os : List Object) (s : State c)
      → IsPart (Desired lib s.cr os) s (apply_policies lib same_spec same_labels os s).1
  unfolding apply_policies
  apply_policies-IsPart [] s = record { writes = same; same_cr = refl }
  apply_policies-IsPart (o ∷ os) s =
      let first = apply_policy-IsPart o os s in
      let t = (apply_policy lib same_spec same_labels o s).1 in
      elim (Result-cases (apply_policy lib same_spec same_labels o s).0) [
        | inr (x, e) ↦ rw e first
        | inl (u, e) ↦
            let rest = apply_policies-IsPart os t in
            rw e (record {
              writes = Extends-trans first.writes (
                  subst
                    (λ k.
                      Extends (Desired lib k (o ∷ os)) (c.history t.world)
                        (c.history (apply_policies lib same_spec same_labels os t).1.world))
                    first.same_cr (Extends-mono (λ x h. inr h) rest.writes));
              same_cr = rest.same_cr ∙ first.same_cr;
            })
      ]

module _ (lib : Library) (same_spec same_labels : Object → Object → Bool) {c : Client} where
  -- Reconciling the policies goes in one of two ways: it fails, and what was written was for the
  -- desired policies; or all desired policies were put in place, and then stale ones were removed.
  pub data Reconciled (rendered : Result (List Object)) (before : State c)
      (out : Result (Unit {0}) × State c) : Type 0 where
    only_applied :
        (e : Error)
        → out.0 ≡ err e
        → Extends
            (Desired lib before.cr (objects_of rendered))
            (c.history before.world)
            (c.history out.1.world)
        → Reconciled rendered before out
    then_pruned :
        (objects : List Object) (mid : State c)
        → rendered ≡ ok objects
        → apply_policies lib same_spec same_labels objects before ≡ (ok tt, mid)
        → Extends (Desired lib before.cr objects) (c.history before.world) (c.history mid.world)
        → Extends
            (Pruned before.cr.name (policy_keys objects))
            (c.history mid.world)
            (c.history out.1.world)
        → Reconciled rendered before out

module _ (lib : Library) (same_spec same_labels : Object → Object → Bool) {c : Client}
    (api : IsApiServer c) where
  apply_rendered-Reconciled :
      (rendered : Result (List Object)) (s : State c)
      → Reconciled lib same_spec same_labels rendered s
          (apply_rendered lib same_spec same_labels rendered s)
  unfolding apply_rendered
  apply_rendered-Reconciled (err e) s = only_applied e refl same
  apply_rendered-Reconciled (ok objects) s =
      let part = apply_policies-IsPart lib same_spec same_labels api objects s in
      let run = apply_policies lib same_spec same_labels objects s in
      elim (Result-cases run.0) [
        | inr (x, e) ↦ rw e (only_applied x refl part.writes)
        | inl (u, e) ↦ rw e (
            then_pruned objects run.1 refl (cc e) part.writes (
              subst
                (λ k. Extends (Pruned k.name (policy_keys objects)) (c.history run.1.world) (
                  c.history
                    (prune_network_policies c run.1.cr (policy_keys objects) run.1.world).1))
                part.same_cr (prune-writes api run.1.cr (policy_keys objects) run.1.world)))
      ]

  reported :
      (rendered : Result (List Object)) (s t : State c) (r : Result (Unit {0}))
      → Reconciled lib same_spec same_labels rendered s (r, t)
      → Reconciled lib same_spec same_labels rendered s (report_policies lib r t)
  reported rendered s t r (only_applied e failure h) =
      let (x, fails) = report_policies-fails lib api e t in
      rw failure (only_applied x fails (rw (report_policies-history lib api (err e) t) h))
  reported rendered s t r (then_pruned objects mid is_rendered done h k) =
      then_pruned objects mid is_rendered done h (rw (report_policies-history lib api r t) k)

  -- Reconciling the NetworkPolicies goes, whatever the other writers do, in one of two ways.
  -- Either it returns an error, and every write was one that ensureNetworkPolicy is allowed for
  -- one of the rendered policies with this instance as the owner. Or rendering succeeded, all the
  -- rendered policies were ensured without an error first, with such writes alone, and every later
  -- write is the removal of a policy that is not among the rendered ones and is the instance's own
  -- by its labels and its owner. So nothing is removed before the isolation that replaces it is in
  -- place.
  pub network_policies_order :
      (names : Names) (encode : PolicySpec → String) (services : Kubernaut → List ServiceSpec)
      (s : State c)
      → Reconciled lib same_spec same_labels
          (rendered_policies names encode services s.cr)
          s
          (reconcile_network_policies lib same_spec same_labels names encode services s)
  unfolding reconcile_network_policies
  network_policies_order names encode services s =
      let rendered = rendered_policies names encode services s.cr in
      let run = apply_rendered lib same_spec same_labels rendered s in
      reported rendered s run.1 run.0 (apply_rendered-Reconciled rendered s)
