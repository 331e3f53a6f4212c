-- ===== src/Migration/Retention.antt =====
-- A failed migration Job (handleFailedMigrationJob of internal/controller/kubernaut_controller.go).
use kubernaut_operator.Base.{String, ◌≡◌, ap, ◌∙◌, ◌⊎◌, inl, inr, some, true, ◌∷◌, eq_refl}
use kubernaut_operator.Base.Map.{get}
use kubernaut_operator.Kube.Object.{Object}
use kubernaut_operator.Kube.Op.{Error, ok, err, then_state}
use kubernaut_operator.Kube.Library.{Library, Texts, IsConditionSet}
use kubernaut_operator.Kube.Client.{Client, IsApiServer}
use kubernaut_operator.Kubernaut.{Kubernaut, Status, Message, error}
use kubernaut_operator.Status.{
  State, requeue_error, patch_status, set_phase, put_condition, set_condition_and_requeue,
}
use kubernaut_operator.Status.Phases.{
  IsStatusServer, set_condition_and_requeue_lem, failed_condition,
}
use kubernaut_operator.Ensure.Reads.{patch_status-history}
use kubernaut_operator.Migration.{
  failed_job, terminal, job_conditions, revision_key, migration_failed, handle_job,
  handle_failed_migration_job,
}

-- The closure of setConditionAndRequeue.
abbrev failed_status : Library → String → String → Message → Kubernaut → Status
failed_status lib type reason message kn =
    set_phase error
      (put_condition lib (failed_condition type reason message kn.generation) kn.status)

module _ (lib : Library) (texts : Texts) {c : Client} (api : IsApiServer c)
    (server : IsStatusServer c) (set : IsConditionSet lib) where
  set_condition_and_requeue-history :
      (type reason : String) (message : Message) (s : State c)
      → c.history (set_condition_and_requeue lib type reason message s).1.world ≡ c.history s.world
  unfolding set_condition_and_requeue
  set_condition_and_requeue-history type reason message s =
      let change = failed_status lib type reason message in
      ap (λ (t : State c). c.history t.world) (then_state (patch_status change) requeue_error s)
      ∙ patch_status-history lib api change s

  -- A failed Job of the current revision of the credentials is kept: handling it writes no object,
  -- and it ends in phase `error` with the condition "MigrationComplete" false and a run after
  -- requeueError, unless the status patch fails, whose error is then returned.
  -- This assumes that an accepted status patch answers with what was sent: the base is current.
  pub failed_job_is_kept :
      (existing : Object) (hash : String) (s : State c)
      → terminal (job_conditions existing.body) ≡ some failed_job
      → (c.history
            (handle_job lib texts existing hash (get revision_key existing.annotations) s).1.world
          ≡ c.history s.world)
        × ((((handle_job lib texts existing hash (get revision_key existing.annotations) s).0
                ≡ ok requeue_error)
              × ((handle_job lib texts existing hash
                    (get revision_key existing.annotations)
                    s).1.cr.status.phase
                  ≡ error)
              × (lib.find_condition "MigrationComplete"
                    (handle_job lib texts existing hash
                      (get revision_key existing.annotations)
                      s).1.cr.status.conditions
                  ≡ some (
                      failed_condition "MigrationComplete" "MigrationFailed"
                        (migration_failed texts existing)
                        s.cr.generation)))
            ⊎ ((e : Error) × ((handle_job lib texts existing hash
                    (get revision_key existing.annotations)
                    s).0
                  ≡ err e)))
  unfolding handle_job handle_failed_migration_job
  failed_job_is_kept existing hash s failed =
      let warned = record s {
        events = record { warning = true; reason = "MigrationFailed" } ∷ s.events;
      } in
      rw (failed, eq_refl)
        (
          set_condition_and_requeue-history "MigrationComplete" "MigrationFailed"
              (migration_failed texts existing) warned,
          elim (set_condition_and_requeue_lem lib server set "MigrationComplete" "MigrationFailed"
              (migration_failed texts existing) warned) [
                | inl (r, p, found) ↦ inl (r, p, found "MigrationComplete")
                | inr (e, same) ↦ inr e
              ],
        )
