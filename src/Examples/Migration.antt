-- ===== src/Examples/Migration.antt =====
-- The database migration on the concrete cluster.
use kubernaut_operator.Base.{◌≡◌, refl, ◌⊎◌, some, none, [], ◌∷◌}
use kubernaut_operator.Base.Map.{get, copy, lookup, insert}
use kubernaut_operator.Kube.Object.{Object, JobCondition, job, secret}
use kubernaut_operator.Kube.Op.{Error, Result, ok, err, pure}
use kubernaut_operator.Kubernaut.{Kubernaut, error}
use kubernaut_operator.Ownership.{
  stamp_ownership, resource_ownership_error, ownership_marker_matches, marker_label, marker_loop,
  resource_owner_matches, owner_refs_match, sole_owner_matches, common_labels,
}
use kubernaut_operator.Hash.{set_hash_annotation, spec_hash, strip_server_metadata}
use kubernaut_operator.Status.{State, patch_status, no_requeue, requeue_error}
use kubernaut_operator.Status.Phases.{failed_condition}
use kubernaut_operator.Ensure.{
  create_if_not_found, found, read_or_create, repair_ownership, check_resource_ownership,
  ownership_metadata_matches, same_values,
}
use kubernaut_operator.Migration.{
  run_job, handle_complete_migration_job, migration_done, wanted, revision_key, handle_job,
  ensure_migration_job, phase_migrate, migration_failed, terminal, postgresql_credential_revision,
}
use kubernaut_operator.Migration.Gate.{HasPassed, migration_gate}
use kubernaut_operator.Migration.Completed.{IsCompleted}
use kubernaut_operator.Migration.Phase.{phase_migrate_gate}
use kubernaut_operator.Migration.Retention.{failed_job_is_kept}
use kubernaut_operator.Examples.Cluster.{cluster_client, Cluster, live, read, find_latest, same_key}
use kubernaut_operator.Examples.Cluster.Laws.{cluster-IsApiServer}
use kubernaut_operator.Examples.Library.{
  library, library-IsConditionSet, own_refs, same_owners, texts,
}
use kubernaut_operator.Examples.Samples.{
  sample, settings, empty_cluster, start, cluster-IsStatusServer,
}

abbrev pub migration_job : Object
migration_job = record settings { kind = "Job"; name = "migration"; labels = []; body = job [] }

abbrev pub build : Kubernaut → Result Object
build kn = ok migration_job

abbrev credentials : Object
credentials = record settings { kind = "Secret"; name = "pg"; body = secret [] none }

abbrev completed : JobCondition
completed = record { type = "Complete"; status = "True"; reason = ""; message = "" }

abbrev stored_job : Object
stored_job = record (stamp_ownership sample (wanted library migration_job "r1")) {
  owner_refs = own_refs sample;
}

abbrev done_cluster : Cluster
done_cluster = record empty_cluster {
  log = live credentials ∷ live (record stored_job { body = job (completed ∷ []) }) ∷ [];
}

-- The running Job of the same revision.
abbrev running_cluster : Cluster
running_cluster = record empty_cluster { log = live credentials ∷ live stored_job ∷ [] }

-- A reconciliation whose status records the hash of the Job.
abbrev recorded : State cluster_client
recorded = record (start running_cluster) {
  cr = record sample { status = record sample.status { last_migration_hash = "migration" } };
}

credentials_read : postgresql_credential_revision library texts recorded ≡ (ok "r1", recorded)
unfolding postgresql_credential_revision read find_latest stamp_ownership set_hash_annotation
credentials_read = refl

job_found :
    create_if_not_found library (wanted library migration_job "r1") recorded
    ≡ (ok (found (record stored_job { resource_version = 2 })), recorded)
unfolding create_if_not_found read_or_create repair_ownership check_resource_ownership
    resource_ownership_error ownership_marker_matches marker_label marker_loop
    resource_owner_matches owner_refs_match sole_owner_matches ownership_metadata_matches
    same_values stamp_ownership common_labels copy lookup get insert read find_latest same_key
    set_hash_annotation spec_hash strip_server_metadata same_owners
job_found = refl

done_passes : (ensure_migration_job library texts build (start done_cluster)).0 ≡ ok no_requeue
unfolding create_if_not_found read_or_create repair_ownership check_resource_ownership
    resource_ownership_error ownership_marker_matches marker_label marker_loop
    resource_owner_matches owner_refs_match sole_owner_matches ownership_metadata_matches
    same_values stamp_ownership common_labels copy lookup get insert read find_latest same_key
    set_hash_annotation spec_hash strip_server_metadata same_owners postgresql_credential_revision
    ensure_migration_job run_job handle_job terminal handle_complete_migration_job patch_status
done_passes = refl

migration_gate_example : HasPassed library texts build (start done_cluster)
migration_gate_example = migration_gate library texts build (start done_cluster) done_passes

phase_passes : (phase_migrate library texts build (pure tt) (start done_cluster)).0 ≡ ok no_requeue
unfolding create_if_not_found read_or_create repair_ownership check_resource_ownership
    resource_ownership_error ownership_marker_matches marker_label marker_loop
    resource_owner_matches owner_refs_match sole_owner_matches ownership_metadata_matches
    same_values stamp_ownership common_labels copy lookup get insert read find_latest same_key
    set_hash_annotation spec_hash strip_server_metadata same_owners postgresql_credential_revision
    ensure_migration_job run_job handle_job terminal handle_complete_migration_job patch_status
    phase_migrate migration_done
phase_passes = refl

phase_migrate_gate_example :
    (before after : State cluster_client) × (pure tt (start done_cluster) ≡ (ok tt, before))
    × HasPassed library texts build before
    × (ensure_migration_job library texts build before ≡ (ok no_requeue, after))
    × IsCompleted library after.cr
        (phase_migrate library texts build (pure tt) (start done_cluster)).1.cr.status
phase_migrate_gate_example =
    phase_migrate_gate library texts build cluster-IsStatusServer library-IsConditionSet (pure tt)
      (start done_cluster) phase_passes

-- A Job that failed with the current revision.
abbrev broken_job : Object
broken_job = record stored_job {
  body = job (record { type = "Failed"; status = "True"; reason = "Deadline"; message = "" } ∷ []);
}

failed_job_is_kept_example :
    (cluster_client.history
        (handle_job library texts broken_job "migration"
          (get revision_key broken_job.annotations)
          (start done_cluster)).1.world
      ≡ [])
    × ((((handle_job library texts broken_job "migration"
              (get revision_key broken_job.annotations)
              (start done_cluster)).0
            ≡ ok requeue_error)
          × ((handle_job library texts broken_job "migration"
                (get revision_key broken_job.annotations)
                (start done_cluster)).1.cr.status.phase
              ≡ error)
          × (library.find_condition "MigrationComplete"
                (handle_job library texts broken_job "migration"
                  (get revision_key broken_job.annotations)
                  (start done_cluster)).1.cr.status.conditions
              ≡ some (
                  failed_condition "MigrationComplete" "MigrationFailed"
                    (migration_failed texts broken_job)
                    1)))
        ⊎ ((e : Error) × ((handle_job library texts broken_job "migration"
                (get revision_key broken_job.annotations)
                (start done_cluster)).0
              ≡ err e)))
unfolding terminal
failed_job_is_kept_example =
    failed_job_is_kept library texts cluster-IsApiServer cluster-IsStatusServer
      library-IsConditionSet broken_job "migration" (start done_cluster) refl
