-- ===== src/Lifecycle/Released.antt =====
-- When the finalizer of an instance goes, and when its phases run (Reconcile, reconcileDelete,
-- runFinalizerCleanup of internal/controller/kubernaut_controller.go).
use kubernaut_operator.Base.{
  String, ◌≡◌, refl, ◌⊎◌, inl, inr, Bool, true, false, List, ◌∷◌, ◌==◌, if◌then◌else◌,
}
use kubernaut_operator.Kube.Op.{Error, Result, Result-cases, ok, err}
use kubernaut_operator.Kube.Library.{Library, IsFinalizerSet}
use kubernaut_operator.Kube.Client.{Client, IsApiServer, Write, stored}
use kubernaut_operator.Kubernaut.{Kubernaut, finalizer_name}
use kubernaut_operator.Status.{State, Requeue}
use kubernaut_operator.Ensure.Writes.{Extends}
use kubernaut_operator.Cleanup.{delete_cluster_scoped}
use kubernaut_operator.Cleanup.Removed.{CleanupWrite, cleanup-writes}
use kubernaut_operator.Lifecycle.{
  without_finalizer, with_finalizer, store, after_cleanup, run_finalizer_cleanup,
}

-- The same resource but for the operator's finalizer, which is there or not as `b` says.
abbrev pub DiffersInFinalizer : Library → Bool → Kubernaut → Kubernaut → Type 0
DiffersInFinalizer lib b old new =
    (new ≡ record old { finalizers = new.finalizers })
    × ((f : String)
        → lib.contains_finalizer f new.finalizers
          ≡ (if finalizer_name == f then b else lib.contains_finalizer f old.finalizers))

-- At most one write follows: the custom resource with its finalizer set or removed.
abbrev pub StoredOnly : Library → Bool → Kubernaut → List Write → List Write → Type 0
StoredOnly lib b kn before after =
    (after ≡ before)
    ⊎ ((new : Kubernaut) × DiffersInFinalizer lib b kn new × (after ≡ stored new ∷ before))

module _ (lib : Library) {c : Client} where
  -- The deletion of an instance that carries the finalizer: it fails and keeps the finalizer, or
  -- the whole cleanup succeeded before the finalizer was removed.
  pub data Cleaned (before : State c) (out : Result Requeue × State c) : Type 0 where
    retained :
        (e : Error)
        → out.0 ≡ err e
        → Extends (CleanupWrite lib before.cr) (c.history before.world) (c.history out.1.world)
        → Cleaned before out
    released :
        (mid : State c)
        → delete_cluster_scoped lib before ≡ (ok tt, mid)
        → Extends (CleanupWrite lib before.cr) (c.history before.world) (c.history mid.world)
        → StoredOnly lib false before.cr (c.history mid.world) (c.history out.1.world)
        → Cleaned before out

module _ (lib : Library) (set : IsFinalizerSet lib) {c : Client} (api : IsApiServer c) where
  without-Differs : (kn : Kubernaut) → DiffersInFinalizer lib false kn (without_finalizer lib kn)
  without-Differs kn = (refl, λ f. set.contains-remove finalizer_name f kn.finalizers)

  pub with-Differs : (kn : Kubernaut) → DiffersInFinalizer lib true kn (with_finalizer lib kn)
  with-Differs kn = (refl, λ f. set.contains-add finalizer_name f kn.finalizers)

  pub store-history :
      (change : Kubernaut → Kubernaut) (b : Bool) (s : State c)
      → DiffersInFinalizer lib b s.cr (change s.cr)
      → StoredOnly lib b s.cr (c.history s.world) (c.history (store change s).1.world)
  unfolding store
  store-history change b s d =
      let one : StoredOnly lib b s.cr (c.history s.world)
          (c.history (c.update_kubernaut (change s.cr) s.world).1) =
        elim (api.update_kubernaut_writes (change s.cr) s.world) [
          | inl e ↦ inl e
          | inr e ↦ inr (change s.cr, d, e)
        ] in
      elim (Result-cases (c.update_kubernaut (change s.cr) s.world).0) [
        | inl (kn, e) ↦ rw e one
        | inr (x, e) ↦ rw e one
      ]

  after_cleanup-history :
      (s : State c)
      → c.history (after_cleanup lib (ok tt) s).1.world
        ≡ c.history (store (without_finalizer lib) s).1.world
  after_cleanup-history s = elim (Result-cases (store (without_finalizer lib) s).0) [
    | inl (u, e) ↦ rw e refl
    | inr (x, e) ↦ rw e refl
  ]

  pub run_finalizer_cleanup-Cleaned : (s : State c) → Cleaned lib s (run_finalizer_cleanup lib s)
  unfolding run_finalizer_cleanup
  run_finalizer_cleanup-Cleaned s =
      let (writes, same_cr) = cleanup-writes lib api s in
      let mid = (delete_cluster_scoped lib s).1 in
      elim (Result-cases (delete_cluster_scoped lib s).0) [
        | inr (x, e) ↦ rw e (retained x refl writes)
        | inl (u, e) ↦ rw e (
            released mid (cc e) writes (
              rw after_cleanup-history (
                rw same_cr at
                  (store-history (without_finalizer lib) false mid (without-Differs mid.cr)))))
      ]
