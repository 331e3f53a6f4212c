-- ===== src/Migration.antt =====
-- The database migration (postgresqlCredentialRevision of internal/controller/datastorage_material.go;
-- phaseMigrate, ensureMigrationJob, handleCompleteMigrationJob, handleFailedMigrationJob, setCRDsReady
-- of internal/controller/kubernaut_controller.go). The Job that the builder makes of the custom
-- resource, and the prerequisites that phaseMigrate ensures first, are arguments.
pub mod Ended
pub mod Gate
pub mod Retention
pub mod Completed
pub mod Phase
use Prim.Native.String.{◌++◌}
use kubernaut_operator.Base.{
  ℕ, String, Bool, true, false, not, ◌&&◌, ◌||◌, Option, none, some, List, [], ◌∷◌, ◌==◌, nat_eqb,
  if◌then◌else◌,
}
use kubernaut_operator.Base.Map.{insert, get}
use kubernaut_operator.Kube.Object.{Object, Key, Body, JobCondition, job}
use kubernaut_operator.Kube.Op.{
  Error, Result, ok, err, Op, pure, fail, gets, attempt, wrap, wrapped, lift, is_not_found,
  is_ownership_conflict, rewrap, ◌>>=◌, ◌>>◌,
}
use kubernaut_operator.Kube.Library.{Library, Texts}
use kubernaut_operator.Kube.Client.{Client}
use kubernaut_operator.Kubernaut.{
  Kubernaut, Status, Condition, Message, text, failed, migrating, deploying, condition_true,
  condition_false,
}
use kubernaut_operator.Hash.{spec_hash_key, spec_hash, set_hash_annotation}
use kubernaut_operator.Drift.{or_default}
use kubernaut_operator.Status.{
  State, Requeue, no_requeue, requeue_migration_poll, call, emit, set_phase, put_condition,
  patch_status, set_condition_and_requeue,
}
use kubernaut_operator.Ensure.{Outcome, made, found, create_if_not_found}

-- AnnotationPostgreSQLCredentialRevision
abbrev pub revision_key : String
revision_key = "kubernaut.ai/postgresql-credential-revision"

-- ctrl.Result{RequeueAfter: time.Millisecond}
abbrev pub requeue_at_once : Requeue
requeue_at_once = record { after = 1000 }

-- PostgreSQLPort
abbrev pub postgresql_port_of : Kubernaut → ℕ
postgresql_port_of kn = if nat_eqb kn.spec.postgresql_port 0 then 5432 else kn.spec.postgresql_port

-- The text that postgresqlCredentialRevision hashes.
unfoldable pub revision_text : Texts → Kubernaut → Object → String
revision_text texts kn secret =
    "postgresql/"
    ++ kn.namespace
    ++ "/"
    ++ kn.spec.postgresql_secret
    ++ "@"
    ++ texts.show secret.resource_version
    ++ "|host="
    ++ kn.spec.postgresql_host
    ++ "|port="
    ++ texts.show (postgresql_port_of kn)
    ++ "|sslMode="
    ++ or_default kn.spec.postgresql_ssl_mode "verify-full"

abbrev pub postgresql_key : Kubernaut → Key
postgresql_key kn = record {
  kind = "Secret";
  namespace = kn.namespace;
  name = kn.spec.postgresql_secret;
}

-- The two terminal states of a Job.
pub data Terminal : Type 0 where
  complete failed_job : Terminal

-- The loop of ensureMigrationJob over the conditions: the first one that decides.
unfoldable pub terminal : List JobCondition → Option Terminal
terminal [] = none
terminal (cond ∷ conds) =
    if cond.type == "Complete" && cond.status == "True"
    then some complete
    else if cond.type == "Failed" && cond.status == "True"
    then some failed_job
    else terminal conds

abbrev pub job_conditions : Body → List JobCondition
job_conditions (job conds) = conds
job_conditions _ = []

abbrev pub job_of : Outcome → Object
job_of (made o) = o
job_of (found o) = o

-- The loop of handleFailedMigrationJob over the conditions.
unfoldable pub failure_message : Texts → List JobCondition → String
failure_message texts [] = "migration job reached a terminal failed state"
failure_message texts (cond ∷ conds) =
    if cond.type == "Failed" && (not (cond.reason == "") || not (cond.message == ""))
    then texts.trim_space (cond.reason ++ ": " ++ cond.message)
    else failure_message texts conds

-- The message of the condition that handleFailedMigrationJob sets.
unfoldable pub migration_failed : Texts → Object → Message
migration_failed texts existing = text (
    "Database migration failed: "
    ++ failure_message texts (job_conditions existing.body)
    ++ "; correct the referenced PostgreSQL dependency and update its Secret before retrying")

abbrev pub migration_condition : String → String → String → Kubernaut → Condition
migration_condition status reason message kn = record {
  type = "MigrationComplete";
  status = status;
  reason = reason;
  message = text message;
  observed_generation = kn.generation;
}

module _ (lib : Library) where
  -- setCRDsReady
  unfoldable pub set_crds_ready : Kubernaut → Status → Status
  set_crds_ready kn status =
      put_condition lib
        (record {
          type = "CRDsInstalled";
          status = condition_true;
          reason = "CRDsReady";
          message = text "All workload CRDs installed";
          observed_generation = kn.generation;
        })
        status

  -- The closure of ensureMigrationJob while the Job runs.
  unfoldable pub running_status : Kubernaut → Status
  running_status kn =
      put_condition lib
        (migration_condition condition_false "MigrationInProgress"
          "Database migration job is running" kn)
        (set_crds_ready kn (set_phase migrating kn.status))

  -- The closure of phaseMigrate.
  unfoldable pub migrated_status : Kubernaut → Status
  migrated_status kn =
      put_condition lib
        (migration_condition condition_true "MigrationComplete" "Database migration job succeeded"
          kn)
        (set_crds_ready kn (set_phase deploying kn.status))

-- The closure of handleCompleteMigrationJob.
abbrev pub hash_status : String → Kubernaut → Status
hash_status hash kn = record kn.status { last_migration_hash = hash }

-- The Job with the revision of the credentials, before its hash is set.
abbrev pub with_revision : Object → String → Object
with_revision built revision = record built {
  annotations = insert revision_key revision built.annotations;
}

-- desiredHash of ensureMigrationJob
abbrev pub wanted_hash : Library → Object → String → String
wanted_hash lib built revision = spec_hash lib (with_revision built revision)

-- The Job that ensureMigrationJob asks for.
abbrev pub wanted : Library → Object → String → Object
wanted lib built revision =
    set_hash_annotation (with_revision built revision) (wanted_hash lib built revision)

module _ (lib : Library) (texts : Texts) {c : Client} where
  abbrev pub deleted_stale : String → Result (Unit {0}) → Op (State c) Requeue
  deleted_stale t (ok u) = pure requeue_at_once
  deleted_stale t (err e) = if is_not_found e then pure requeue_at_once else fail (wrapped t e)

  -- deleteObservedResource of a stale Job, and what both handlers make of its error.
  unfoldable pub delete_stale : String → Object → Op (State c) Requeue
  delete_stale t stale = do r ← attempt (call (c.delete stale)); deleted_stale t r

  -- handleCompleteMigrationJob
  unfoldable pub handle_complete_migration_job : Object → String → Op (State c) Requeue
  handle_complete_migration_job existing desired_hash =
      if get spec_hash_key existing.annotations == desired_hash
      then patch_status (hash_status desired_hash) >> pure no_requeue
      else delete_stale "deleting stale migration job" existing

  -- handleFailedMigrationJob
  unfoldable pub handle_failed_migration_job : Object → String → Op (State c) Requeue
  handle_failed_migration_job existing revision =
      if not (get revision_key existing.annotations == revision)
      then delete_stale "deleting stale failed migration job" existing
      else emit true "MigrationFailed"
        >> set_condition_and_requeue lib "MigrationComplete" "MigrationFailed"
            (migration_failed texts existing)

  -- The end of ensureMigrationJob for a Job without a terminal condition.
  unfoldable pub await_job : String → Op (State c) Requeue
  await_job desired_hash = do
    kn ← gets (λ s. s.cr)
    if kn.status.last_migration_hash == desired_hash
        then pure no_requeue
        else patch_status (running_status lib) >> pure requeue_migration_poll

  abbrev pub by_terminal : Object → String → String → Option Terminal → Op (State c) Requeue
  by_terminal existing desired_hash revision (some complete) =
      handle_complete_migration_job existing desired_hash
  by_terminal existing desired_hash revision (some failed_job) =
      handle_failed_migration_job existing revision
  by_terminal existing desired_hash revision none = await_job desired_hash

  -- ensureMigrationJob once the Job is there.
  unfoldable pub handle_job : Object → String → String → Op (State c) Requeue
  handle_job existing desired_hash revision =
      by_terminal existing desired_hash revision (terminal (job_conditions existing.body))

  -- ensureMigrationJob from the hash of the desired Job on
  unfoldable pub run_job : Object → String → Op (State c) Requeue
  run_job built revision = do
    outcome ← wrap "ensuring migration job" (create_if_not_found lib (wanted lib built revision))
    handle_job (job_of outcome) (wanted_hash lib built revision) revision

  -- postgresqlCredentialRevision
  unfoldable pub postgresql_credential_revision : Op (State c) String
  postgresql_credential_revision = do
    kn ← gets (λ s. s.cr)
    secret ←
        wrap "reading PostgreSQL Secret for credential revision" (call (c.get (postgresql_key kn)))
    pure (texts.sha256_hex (revision_text texts kn secret))

module _ (lib : Library) (texts : Texts) (migration_job : Kubernaut → Result Object)
    {c : Client} where
  -- ensureMigrationJob
  unfoldable pub ensure_migration_job : Op (State c) Requeue
  ensure_migration_job = do
    kn ← gets (λ s. s.cr)
    built ← lift (rewrap "building migration job" (migration_job kn))
    revision ← postgresql_credential_revision lib texts
    run_job lib texts built revision

  -- What phaseMigrate does with an error of the prerequisites.
  unfoldable pub prereqs_failed : Error → Op (State c) Requeue
  prereqs_failed e = do
    (if is_ownership_conflict e then emit true "OwnershipConflict" else pure tt)
    set_condition_and_requeue lib "CRDsInstalled" "CRDInstallFailed" (failed "" e)

  unfoldable pub migration_done : Requeue → Op (State c) Requeue
  migration_done result =
      if nat_eqb result.after 0
      then emit false "MigrationComplete" >> (patch_status (migrated_status lib) >> pure no_requeue)
      else pure result

  abbrev pub after_prereqs : Result (Unit {0}) → Op (State c) Requeue
  after_prereqs (err e) = prereqs_failed e
  after_prereqs (ok u) = ensure_migration_job >>= migration_done

  -- phaseMigrate
  unfoldable pub phase_migrate : Op (State c) (Unit {0}) → Op (State c) Requeue
  phase_migrate ensure_migration_prereqs = attempt ensure_migration_prereqs >>= after_prereqs
