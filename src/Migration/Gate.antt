-- ===== src/Migration/Gate.antt =====
-- When the migration lets the reconciliation go on (ensureMigrationJob, phaseMigrate of
-- internal/controller/kubernaut_controller.go).
use kubernaut_operator.Base.{
  String, ◌≡◌, refl, ◌≢◌, inl, inr, Bool-cases, true, Option, none, some, ◌==◌, eq_iff, arith, ap,
  ◌∷◌, All,
}
use kubernaut_operator.Base.Map.{get}
use kubernaut_operator.Kube.Object.{Object}
use kubernaut_operator.Kube.Op.{
  ◌>>=◌, Result, Result-cases, Op, ok, err, lift, rewrap, ◌>>=◌, pure, is_not_found, bind_succeeds,
  wrap, wrap_succeeds, ◌>>◌,
}
use kubernaut_operator.Kube.Library.{Library, Texts}
use kubernaut_operator.Kube.Client.{Client}
use kubernaut_operator.Kubernaut.{Kubernaut, Message, error, condition_false}
use kubernaut_operator.Hash.{spec_hash_key}
use kubernaut_operator.Status.{
  State, Requeue, requeue_error, requeue_migration_poll, no_requeue, patch_status, set_phase,
  put_condition, set_condition_and_requeue,
}
use kubernaut_operator.Ensure.{Outcome, create_if_not_found}
use kubernaut_operator.Migration.Ended.{
  IsOpen, HasSucceeded, terminal-HasSucceeded, terminal-IsOpen,
}
use kubernaut_operator.Migration.{
  migration_failed, Terminal, complete, failed_job, terminal, job_conditions, job_of, wanted,
  wanted_hash, run_job, delete_stale, by_terminal, revision_key, handle_complete_migration_job,
  handle_failed_migration_job, await_job, handle_job, postgresql_credential_revision,
  ensure_migration_job, running_status,
}

-- The database is migrated as far as the operator can tell: the Job is complete and was made for
-- the desired hash, or it has neither completed nor failed and the status records that hash.
pub data IsMigrated (existing : Object) (hash recorded : String) : Type 0 where
  by_job :
      HasSucceeded (job_conditions existing.body)
      → get spec_hash_key existing.annotations ≡ hash
      → IsMigrated existing hash recorded
  by_status :
      All IsOpen (job_conditions existing.body)
      → recorded ≡ hash
      → IsMigrated existing hash recorded

-- An operation that ends in a request for a later run does not let the reconciliation go on.
then_requeues :
    {S : Type 0} (m : Op S (Unit {0})) (q : Requeue) (s : S)
    → q.after ≢ 0
    → ((m >> pure q) s).0 ≢ ok no_requeue
then_requeues m q s later = elim (Result-cases (m s).0) [
  | inl (u, e) ↦
      rw e (λ h. let same_q : q ≡ no_requeue = cc in later (ap (λ (r : Requeue). r.after) same_q))
  | inr (x, e) ↦ rw e (λ h. cc)
]

module _ (lib : Library) (texts : Texts) {c : Client} where
  delete_stale_requeues :
      (t : String) (stale : Object) (s : State c)
      → (delete_stale lib texts t stale s).0 ≢ ok no_requeue
  unfolding delete_stale
  delete_stale_requeues t stale s = elim (Result-cases (c.delete stale s.world).0) [
    | inl (u, e) ↦ rw e (λ h. ground arith)
    | inr (x, e) ↦ rw e (elim (Bool-cases (is_not_found x)) [
      | inl y ↦ rw y (λ h. ground arith)
      | inr n ↦ rw n (λ h. ground arith)
    ])
  ]

  pub set_condition_requeues :
      (type reason : String) (message : Message) (s : State c)
      → (set_condition_and_requeue lib type reason message s).0 ≢ ok no_requeue
  unfolding set_condition_and_requeue
  set_condition_requeues type reason message s =
      then_requeues
        (patch_status (λ kn. set_phase error (
          put_condition lib
            (record {
              type = type;
              status = condition_false;
              reason = reason;
              message = message;
              observed_generation = kn.generation;
            })
            kn.status)))
        requeue_error s (λ h. omega arith)

  failed_requeues :
      (existing : Object) (revision : String) (s : State c)
      → (handle_failed_migration_job lib texts existing revision s).0 ≢ ok no_requeue
  unfolding handle_failed_migration_job
  failed_requeues existing revision s =
      elim (Bool-cases (get revision_key existing.annotations == revision)) [
        | inl current ↦ rw current (
            set_condition_requeues "MigrationComplete" "MigrationFailed"
              (migration_failed texts existing)
              (record s {
                events = record { warning = true; reason = "MigrationFailed" } ∷ s.events;
              }))
        | inr stale ↦
            rw stale (delete_stale_requeues "deleting stale failed migration job" existing s)
      ]

  complete_gate :
      (existing : Object) (hash : String) (s : State c)
      → (handle_complete_migration_job lib texts existing hash s).0 ≡ ok no_requeue
      → get spec_hash_key existing.annotations ≡ hash
  unfolding handle_complete_migration_job
  complete_gate existing hash s =
      elim (Bool-cases (get spec_hash_key existing.annotations == hash)) [
        | inl same ↦ rw same (λ h. (eq_iff (get spec_hash_key existing.annotations) hash).0 same)
        | inr stale ↦
            rw stale
              (λ h. absurd (delete_stale_requeues "deleting stale migration job" existing s h))
      ]

  await_gate :
      (hash : String) (s : State c)
      → (await_job lib texts hash s).0 ≡ ok no_requeue
      → s.cr.status.last_migration_hash ≡ hash
  unfolding await_job
  await_gate hash s = elim (Bool-cases (s.cr.status.last_migration_hash == hash)) [
    | inl same ↦ rw same (λ h. (eq_iff s.cr.status.last_migration_hash hash).0 same)
    | inr new ↦ rw new (λ h. absurd (
        then_requeues (patch_status (running_status lib)) requeue_migration_poll s
          (λ z. omega arith) h))
  ]

  by_terminal_gate :
      (existing : Object) (hash revision : String) (s : State c) (t : Option Terminal)
      → terminal (job_conditions existing.body) ≡ t
      → (by_terminal lib texts existing hash revision t s).0 ≡ ok no_requeue
      → IsMigrated existing hash s.cr.status.last_migration_hash
  by_terminal_gate existing hash revision s (some complete) e h =
      by_job (terminal-HasSucceeded _ e) (complete_gate existing hash s h)
  by_terminal_gate existing hash revision s (some failed_job) e h =
      absurd (failed_requeues existing revision s h)
  by_terminal_gate existing hash revision s none e h =
      by_status (terminal-IsOpen _ e) (await_gate hash s h)

  handle_job_gate :
      (existing : Object) (hash revision : String) (s : State c)
      → (handle_job lib texts existing hash revision s).0 ≡ ok no_requeue
      → IsMigrated existing hash s.cr.status.last_migration_hash
  unfolding handle_job
  handle_job_gate existing hash revision s h =
      by_terminal_gate existing hash revision s (terminal (job_conditions existing.body)) refl h

module _ (lib : Library) (texts : Texts) (build : Kubernaut → Result Object) {c : Client} where
  -- A run that went on: the Job was built, the revision read, the Job created or found and its
  -- ownership checked, and the database is migrated.
  pub data HasPassed (s : State c) : Type 0 where
    passed :
        (built : Object) (revision : String) (before : State c) (outcome : Outcome)
        (after : State c)
        → build s.cr ≡ ok built
        → postgresql_credential_revision lib texts s ≡ (ok revision, before)
        → create_if_not_found lib (wanted lib built revision) before ≡ (ok outcome, after)
        → IsMigrated
            (job_of outcome)
            (wanted_hash lib built revision)
            after.cr.status.last_migration_hash
        → HasPassed s

  run_job_passed :
      (s before : State c) (built : Object) (revision : String)
      → build s.cr ≡ ok built
      → postgresql_credential_revision lib texts s ≡ (ok revision, before)
      → (run_job lib texts built revision before).0 ≡ ok no_requeue
      → HasPassed s
  unfolding run_job
  run_job_passed s before built revision is_built read h =
      let (outcome, after, ensured, handled) =
        bind_succeeds
          (wrap "ensuring migration job" (create_if_not_found lib (wanted lib built revision)))
          (λ o. handle_job lib texts (job_of o) (wanted_hash lib built revision) revision) before
          h in
      passed built revision before outcome after is_built read
        (wrap_succeeds "ensuring migration job"
          (create_if_not_found lib (wanted lib built revision)) before after ensured)
        (handle_job_gate lib texts (job_of outcome) (wanted_hash lib built revision) revision after
          handled)

  built_job_passed :
      (s : State c) (built : Object)
      → build s.cr ≡ ok built
      → ((postgresql_credential_revision lib texts >>= run_job lib texts built) s).0 ≡ ok no_requeue
      → HasPassed s
  built_job_passed s built is_built h =
      let (revision, before, read, after_read) =
        bind_succeeds (postgresql_credential_revision lib texts) (run_job lib texts built) s h in
      run_job_passed s before built revision is_built read after_read

  after_build :
      (r : Result Object) (s : State c)
      → build s.cr ≡ r
      → ((lift (rewrap "building migration job" r) >>= λ built.
            postgresql_credential_revision lib texts >>= run_job lib texts built)
          s).0
        ≡ ok no_requeue
      → HasPassed s
  after_build (ok built) = λ s. built_job_passed s built
  after_build (err x) = λ s is_built h. cc

  -- If ensureMigrationJob asks for no later run, the Job of the current revision was created or
  -- found under the ownership check, and either it is complete and carries the desired hash, or it
  -- has no terminal condition and the status records the desired hash. So a failed Job and an
  -- outdated one never let the reconciliation go on.
  pub migration_gate :
      (s : State c) → (ensure_migration_job lib texts build s).0 ≡ ok no_requeue → HasPassed s
  unfolding ensure_migration_job
  migration_gate s h = after_build (build s.cr) s refl h
