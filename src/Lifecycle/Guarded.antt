-- ===== src/Lifecycle/Guarded.antt =====
-- What one run of Reconcile may write (internal/controller/kubernaut_controller.go).
use kubernaut_operator.Base.{
  String, ◌≡◌, refl, ◌⊎◌, inl, inr, Bool, true, false, [], ◌==◌, eq_iff, Bool-cases, if◌then◌else◌,
}
use kubernaut_operator.Kube.Op.{Result, Result-cases, ok, pure, ◌>>◌}
use kubernaut_operator.Kube.Library.{Library, IsFinalizerSet}
use kubernaut_operator.Kube.Client.{Client, IsApiServer}
use kubernaut_operator.Kubernaut.{Kubernaut, singleton_name, finalizer_name}
use kubernaut_operator.Singleton.{authorize_singleton}
use kubernaut_operator.Status.{State, Requeue, no_requeue}
use kubernaut_operator.Lifecycle.{
  Phases, with_finalizer, store, reconcile_delete, activate, reconcile_phases, reconcile_instance,
  reconcile, run_of,
}
use kubernaut_operator.Lifecycle.Released.{
  StoredOnly, Cleaned, with-Differs, store-history, run_finalizer_cleanup-Cleaned,
}

-- A live instance of the right name that the API server lists as the only one.
pub record IsAuthorizedInstance (c : Client) (kn : Kubernaut) (w : c.World) : Type 0 where
  pub named : kn.name ≡ singleton_name
  pub is_live : kn.terminating ≡ false
  pub authorized : (authorize_singleton c kn w).0 ≡ ok tt

module _ (lib : Library) {c : Client} where
  -- The ways of a run from the instance that it read. What runs is in `out`.
  pub data Ran (phases : Phases c) (before : State c) (out : Result Requeue × State c)
      : Type 0 where
    idle : c.history out.1.world ≡ c.history before.world → Ran phases before out
    claimed :
        IsAuthorizedInstance c before.cr before.world
        → StoredOnly lib true before.cr (c.history before.world) (c.history out.1.world)
        → Ran phases before out
    deleting :
        before.cr.name ≡ singleton_name
        → before.cr.terminating ≡ true
        → Cleaned lib before out
        → Ran phases before out
    active :
        (w : c.World)
        → IsAuthorizedInstance c before.cr before.world
        → lib.contains_finalizer finalizer_name before.cr.finalizers ≡ true
        → c.history w ≡ c.history before.world
        → out ≡ reconcile_phases phases (record before { world = w })
        → Ran phases before out

module _ (lib : Library) (set : IsFinalizerSet lib) {c : Client} (api : IsApiServer c)
    (phases : Phases c) where
  reconcile_delete-Ran :
      (s : State c)
      → s.cr.name ≡ singleton_name
      → s.cr.terminating ≡ true
      → Ran lib phases s (reconcile_delete lib s)
  unfolding reconcile_delete
  reconcile_delete-Ran s named ends =
      elim (Bool-cases (lib.contains_finalizer finalizer_name s.cr.finalizers)) [
        | inl y ↦ rw y (deleting named ends (run_finalizer_cleanup-Cleaned lib set api s))
        | inr n ↦ rw n (idle refl)
      ]

  claim-Ran :
      (s : State c) (w : c.World)
      → IsAuthorizedInstance c s.cr s.world
      → c.history w ≡ c.history s.world
      → Ran lib phases s ((store (with_finalizer lib) >> pure no_requeue) (record s { world = w }))
  claim-Ran s w ok_instance same_history =
      let t = record s { world = w } in
      let stored_one =
        store-history lib set api (with_finalizer lib) true t (with-Differs lib set api s.cr) in
      elim (Result-cases (store (with_finalizer lib) t).0) [
        | inl (u, e) ↦ rw e (claimed ok_instance (rw same_history at stored_one))
        | inr (x, e) ↦ rw e (claimed ok_instance (rw same_history at stored_one))
      ]

  activate-Ran :
      (s : State c)
      → s.cr.name ≡ singleton_name
      → s.cr.terminating ≡ false
      → Ran lib phases s (activate lib phases s)
  unfolding activate authorize_singleton
  activate-Ran s named lives =
      let w = (c.list_kubernauts s.world).1 in
      let same_history = api.list_kubernauts_reads s.world in
      elim (Result-cases (authorize_singleton c s.cr s.world).0) [
        | inr (x, e) ↦ rw e (idle same_history)
        | inl (u, e) ↦
            let ok_instance : IsAuthorizedInstance c s.cr s.world = record {
              named = named;
              is_live = lives;
              authorized = e;
            } in
            rw e (elim (Bool-cases (lib.contains_finalizer finalizer_name s.cr.finalizers)) [
              | inl y ↦ rw y (active w ok_instance y same_history refl)
              | inr n ↦ rw n (claim-Ran s w ok_instance same_history)
            ])
      ]

  by_terminating :
      (b : Bool) (s : State c)
      → s.cr.terminating ≡ b
      → s.cr.name ≡ singleton_name
      → Ran lib phases s ((if b then reconcile_delete lib else activate lib phases) s)
  by_terminating true s e named = reconcile_delete-Ran s named e
  by_terminating false s e named = activate-Ran s named e

  reconcile_instance-Ran : (s : State c) → Ran lib phases s (reconcile_instance lib phases s)
  unfolding reconcile_instance
  reconcile_instance-Ran s = elim (Bool-cases (s.cr.name == singleton_name)) [
    | inr other ↦ rw other (idle refl)
    | inl named ↦
        rw named
          (by_terminating s.cr.terminating s refl ((eq_iff s.cr.name singleton_name).0 named))
  ]

  -- A run of Reconcile writes nothing, or it is one of these. It claims the instance: a live one
  -- of the right name that the API server lists as the only one, and at most one write follows,
  -- the instance with its finalizer added and nothing else changed. It deletes: the instance is
  -- terminating, and the run either returns an error after authorized removals alone, or the whole
  -- cleanup succeeded with such removals and at most one write follows, the instance with the
  -- finalizer removed and nothing else changed. Or it runs the phases, for such an authorized
  -- instance, which carries the finalizer already, from a state to which nothing was written.
  pub reconcile_guarded :
      (namespace name : String) (w : c.World)
      → (c.history (reconcile lib phases namespace name w).world ≡ c.history w)
        ⊎ ((kn : Kubernaut) × (out : Result Requeue × State c) × ((c.get_kubernaut namespace name
                w).0
              ≡ ok kn)
            × (reconcile lib phases namespace name w ≡ run_of out)
            × (c.history (c.get_kubernaut namespace name w).1 ≡ c.history w)
            × Ran lib phases
                (record { cr = kn; world = (c.get_kubernaut namespace name w).1; events = [] })
                out)
  unfolding reconcile
  reconcile_guarded namespace name w =
      let unread = api.get_kubernaut_reads namespace name w in
      elim (Result-cases (c.get_kubernaut namespace name w).0) [
        | inr (x, e) ↦ inl (rw e unread)
        | inl (kn, e) ↦ inr (
          kn,
          reconcile_instance lib phases
              (record { cr = kn; world = (c.get_kubernaut namespace name w).1; events = [] }),
          e,
          rw e refl,
          unread,
          reconcile_instance-Ran _,
        )
      ]
