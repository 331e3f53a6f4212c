-- ===== src/Status.antt =====
-- The state of one reconciliation and its status writes (phaseOrder, setPhase, patchStatus,
-- setConditionAndRequeue, conditionStatus of internal/controller/kubernaut_controller.go). `kn` is
-- a pointer that the whole reconciliation shares, so it is the field `cr` of the state. The event
-- recorder is the one that the manager sets; log lines are left out.
pub mod Phases
use kubernaut_operator.Base.{ℕ, String, Bool, true, false, List, [], ◌∷◌, leb, if◌then◌else◌}
use kubernaut_operator.Kube.Op.{Error, Result, ok, err, Op, pure, ◌>>=◌, ◌>>◌}
use kubernaut_operator.Kube.Library.{Library}
use kubernaut_operator.Kube.Client.{Client}
use kubernaut_operator.Kubernaut.{
  Kubernaut, Status, Phase, unset, validating, migrating, deploying, running, degraded, error,
  Condition, Message, condition_true, condition_false,
}

-- An event on the custom resource: its reason, and whether it is a warning.
pub record Event : Type 0 where
  pub warning : Bool
  pub reason : String

pub record State (c : Client) : Type 0 where
  pub cr : Kubernaut
  pub world : c.World
  pub events : List Event

-- ctrl.Result: the delay of the next run, 0 for none; a microsecond is the unit.
pub record Requeue : Type 0 where
  pub after : ℕ

abbrev pub no_requeue : Requeue
no_requeue = record { after = 0 }

-- requeueMigrationPoll, requeueDegraded, requeueError, requeueRunning
abbrev pub requeue_migration_poll : Requeue
requeue_migration_poll = record { after = 10000000 }

abbrev pub requeue_degraded : Requeue
requeue_degraded = record { after = 15000000 }

abbrev pub requeue_error : Requeue
requeue_error = record { after = 30000000 }

abbrev pub requeue_running : Requeue
requeue_running = record { after = 60000000 }

-- phaseOrder, with every rank one higher, so that the -1 of `error` is a natural number
unfoldable pub phase_order : Phase → ℕ
phase_order unset = 1
phase_order validating = 2
phase_order migrating = 3
phase_order deploying = 4
phase_order running = 5
phase_order degraded = 5
phase_order error = 0

abbrev advance : Phase → Phase → Phase
advance current error = error
advance current phase = if leb (phase_order current) (phase_order phase) then phase else current

-- setPhase
unfoldable pub set_phase : Phase → Status → Status
unfolding phase_order
set_phase phase status = record status { phase = advance status.phase phase }

-- conditionStatus
abbrev pub condition_status : Bool → String
condition_status ready = if ready then condition_true else condition_false

module _ (lib : Library) where
  -- meta.SetStatusCondition(&kn.Status.Conditions, ...)
  unfoldable pub put_condition : Condition → Status → Status
  put_condition condition status = record status {
    conditions = lib.set_condition condition status.conditions;
  }

module _ {c : Client} where
  abbrev pub call : {A : Type 0} → Op c.World A → Op (State c) A
  call m s = let (r, w) = m s.world in (r, record s { world = w })

  -- r.Recorder.Eventf
  abbrev pub emit : Bool → String → Op (State c) (Unit {0})
  emit warning reason s =
      (ok tt, record s { events = record { warning = warning; reason = reason } ∷ s.events })

  abbrev patched : State c → c.World → Result Kubernaut → Result (Unit {0}) × State c
  patched s w (ok kn) = (ok tt, record s { cr = kn; world = w })
  patched s w (err e) = (err e, record s { world = w })

  -- patchStatus; `change` is the closure's effect on the status. A failed patch leaves `kn` as it
  -- was, a successful one brings the server's answer.
  unfoldable pub patch_status : (Kubernaut → Status) → Op (State c) (Unit {0})
  patch_status change s =
      let (r, w) = c.patch_status s.cr (record s.cr { status = change s.cr }) s.world in
      patched s w r

module _ (lib : Library) {c : Client} where
  -- setConditionAndRequeue
  unfoldable pub set_condition_and_requeue : String → String → Message → Op (State c) Requeue
  unfolding patch_status
  set_condition_and_requeue type reason message = do
    patch_status λ kn. set_phase error (
        put_condition lib
          (record {
            type = type;
            status = condition_false;
            reason = reason;
            message = message;
            observed_generation = kn.generation;
          })
          kn.status)
    pure requeue_error
