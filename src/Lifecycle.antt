-- ===== src/Lifecycle.antt =====
-- The reconciliation of one instance (Reconcile, reconcilePhases, reconcileDelete and
-- runFinalizerCleanup of internal/controller/kubernaut_controller.go). The phases are arguments, so
-- that what is said here holds whatever they do.
pub mod Released
pub mod Guarded
pub mod Order
use kubernaut_operator.Base.{
  String, Bool, true, false, not, List, [], ◌∷◌, ◌==◌, nat_eqb, if◌then◌else◌,
}
use kubernaut_operator.Kube.Op.{
  Error, Result, ok, err, Op, pure, fail, gets, attempt, lift, modify, is_not_found, ◌>>=◌, ◌>>◌,
}
use kubernaut_operator.Kube.Library.{Library}
use kubernaut_operator.Kube.Client.{Client}
use kubernaut_operator.Kubernaut.{Kubernaut, singleton_name, finalizer_name}
use kubernaut_operator.Singleton.{authorize_singleton}
use kubernaut_operator.Cleanup.{delete_cluster_scoped}
use kubernaut_operator.Status.{State, Event, Requeue, no_requeue, call, emit}

-- The five parts of reconcilePhases.
pub record Phases (c : Client) : Type 0 where
  pub validate : Op (State c) Requeue  -- phaseValidate
  pub policies : Op (State c) (Unit {0})  -- reconcileNetworkPolicies
  pub migrate : Op (State c) Requeue  -- phaseMigrate
  pub deploy : Op (State c) (Unit {0})  -- phaseDeploy
  pub run : Op (State c) Requeue  -- phaseRunning

module _ {c : Client} where
  -- `r.Get(ctx, client.ObjectKeyFromObject(kn), kn)`
  unfoldable pub refresh : Op (State c) (Unit {0})
  refresh = do
    kn ← gets (λ s. s.cr)
    live ← call (c.get_kubernaut kn.namespace kn.name)
    modify λ s. record s { cr = live }

  -- `if err != nil || result.RequeueAfter > 0 { return result, err }` before the rest
  unfoldable pub unless_requeued :
      Op (State c) Requeue → Op (State c) Requeue → Op (State c) Requeue
  unless_requeued phase rest = do
    result ← phase
    if nat_eqb result.after 0 then rest else pure result

  -- reconcilePhases
  unfoldable pub reconcile_phases : Phases c → Op (State c) Requeue
  reconcile_phases phases = unless_requeued phases.validate (
      refresh
      >> (phases.policies
          >> unless_requeued phases.migrate
              (refresh >> (phases.deploy >> (refresh >> phases.run)))))

-- RemoveFinalizer and AddFinalizer on the custom resource
abbrev pub without_finalizer : Library → Kubernaut → Kubernaut
without_finalizer lib kn = record kn {
  finalizers = lib.remove_finalizer finalizer_name kn.finalizers;
}

abbrev pub with_finalizer : Library → Kubernaut → Kubernaut
with_finalizer lib kn = record kn { finalizers = lib.add_finalizer finalizer_name kn.finalizers }

-- What a run of Reconcile leaves.
pub record Run (c : Client) : Type 0 where
  pub result : Result Requeue
  pub world : c.World
  pub events : List Event

module _ {c : Client} where
  abbrev pub run_of : Result Requeue × State c → Run c
  run_of (r, s) = record { result = r; world = s.world; events = s.events }

  -- `r.Update(ctx, kn)` of the custom resource that the run shares: the change stays, whatever the
  -- answer, and an answer replaces it.
  unfoldable pub store : (Kubernaut → Kubernaut) → Op (State c) (Unit {0})
  store change = do
    modify λ s. record s { cr = change s.cr }
    kn ← gets (λ s. s.cr)
    live ← call (c.update_kubernaut kn)
    modify λ s. record s { cr = live }

module _ (lib : Library) {c : Client} where
  abbrev pub after_cleanup : Result (Unit {0}) → Op (State c) Requeue
  after_cleanup (err e) = emit true "CleanupFailed" >> fail e
  after_cleanup (ok u) = do
    store (without_finalizer lib)
    emit false "CleanupComplete"
    pure no_requeue

  -- runFinalizerCleanup; controller-runtime ignores the delay beside an error.
  unfoldable pub run_finalizer_cleanup : Op (State c) Requeue
  run_finalizer_cleanup = do r ← attempt (delete_cluster_scoped lib); after_cleanup r

  -- reconcileDelete
  unfoldable pub reconcile_delete : Op (State c) Requeue
  reconcile_delete = do
    kn ← gets (λ s. s.cr)
    if lib.contains_finalizer finalizer_name kn.finalizers
        then run_finalizer_cleanup
        else pure no_requeue

  -- Reconcile from the check of the singleton on
  unfoldable pub activate : Phases c → Op (State c) Requeue
  activate phases = do
    kn ← gets (λ s. s.cr)
    call (authorize_singleton c kn)
    if lib.contains_finalizer finalizer_name kn.finalizers
        then reconcile_phases phases
        else store (with_finalizer lib) >> pure no_requeue

  -- Reconcile of the instance that was read
  unfoldable pub reconcile_instance : Phases c → Op (State c) Requeue
  reconcile_instance phases = do
    kn ← gets (λ s. s.cr)
    if not (kn.name == singleton_name)
        then pure no_requeue
        else if kn.terminating
        then reconcile_delete
        else activate phases

  abbrev pub reconcile_read : Phases c → Result Kubernaut → c.World → Run c
  reconcile_read phases (ok kn) w =
      run_of (reconcile_instance phases (record { cr = kn; world = w; events = [] }))
  reconcile_read phases (err e) w = record {
    result = if is_not_found e then ok no_requeue else err e;
    world = w;
    events = [];
  }

  -- Reconcile
  unfoldable pub reconcile : Phases c → (namespace name : String) → c.World → Run c
  reconcile phases namespace name w =
      let (r, v) = c.get_kubernaut namespace name w in reconcile_read phases r v
