-- ===== src/Migration/Completed.antt =====
-- The status of a completed migration (the closure of phaseMigrate in
-- internal/controller/kubernaut_controller.go).
use kubernaut_operator.Base.{
  ℕ, String, ◌≢◌, ◌⊎◌, some, ◌==◌, eq_iff, ◌≡◌, refl, List, ◌∙◌, inl, inr, arith, false,
}
use kubernaut_operator.Kube.Library.{Library, IsConditionSet}
use kubernaut_operator.Kubernaut.{
  Kubernaut, Status, Condition, text, Phase, unset, validating, migrating, error, deploying,
  running, degraded,
}
use kubernaut_operator.Status.{put_condition, set_phase, phase_order}
use kubernaut_operator.Migration.{migrated_status, set_crds_ready}

module _ (lib : Library) where
  abbrev done_condition : (type reason note : String) → ℕ → Condition
  done_condition type reason note generation = record {
    type = type;
    status = "True";
    reason = reason;
    message = text note;
    observed_generation = generation;
  }

  -- The status of a completed migration, written out: the phase is `deploying`, or it is `running` or
  -- `degraded` as before; "MigrationComplete" and "CRDsInstalled" are "True" for the generation, and
  -- the other conditions are as before, like the services, the hash and the bindings.
  pub record IsCompleted (kn : Kubernaut) (status : Status) : Type 0 where
    pub moved :
        ((status.phase ≡ deploying) × (kn.status.phase ≢ running) × (kn.status.phase ≢ degraded))
        ⊎ ((status.phase ≡ kn.status.phase)
            × ((kn.status.phase ≡ running) ⊎ (kn.status.phase ≡ degraded)))
    pub completed :
        lib.find_condition "MigrationComplete" status.conditions
        ≡ some (
            done_condition "MigrationComplete" "MigrationComplete"
              "Database migration job succeeded" kn.generation)
    pub installed :
        lib.find_condition "CRDsInstalled" status.conditions
        ≡ some
            (done_condition "CRDsInstalled" "CRDsReady" "All workload CRDs installed" kn.generation)
    pub others :
        (type : String)
        → type ≢ "MigrationComplete"
        → type ≢ "CRDsInstalled"
        → lib.find_condition type status.conditions ≡ lib.find_condition type kn.status.conditions
    pub services : status.services ≡ kn.status.services
    pub hash : status.last_migration_hash ≡ kn.status.last_migration_hash
    pub bindings : status.bound_tool_role_bindings ≡ kn.status.bound_tool_role_bindings

  moved_at :
      (current : Phase) (status : Status)
      → (((set_phase deploying (record status { phase = current })).phase ≡ deploying)
          × (current ≢ running)
          × (current ≢ degraded))
        ⊎ (((set_phase deploying (record status { phase = current })).phase ≡ current)
            × ((current ≡ running) ⊎ (current ≡ degraded)))
  unfolding set_phase phase_order
  moved_at running status = inr (refl, inl refl)
  moved_at degraded status = inr (refl, inr refl)
  moved_at unset status = inl (refl, λ e. cc, λ e. cc)
  moved_at validating status = inl (refl, λ e. cc, λ e. cc)
  moved_at migrating status = inl (refl, λ e. cc, λ e. cc)
  moved_at deploying status = inl (refl, λ e. cc, λ e. cc)
  moved_at error status = inl (refl, λ e. cc, λ e. cc)

  other_condition :
      (set : IsConditionSet lib) (condition : Condition) (conditions : List Condition)
      (type : String)
      → type ≢ condition.type
      → lib.find_condition type (lib.set_condition condition conditions)
        ≡ lib.find_condition type conditions
  other_condition set condition conditions type n =
      let differs : condition.type == type ≡ false = ground (arith, eq_iff condition.type type) in
      let found = set.find-set condition conditions type in rw differs at found

  pub migrated_lem :
      (set : IsConditionSet lib) (kn : Kubernaut) → IsCompleted kn (migrated_status lib kn)
  unfolding migrated_status set_crds_ready put_condition set_phase
  migrated_lem set kn =
      let start = (set_phase deploying kn.status).conditions in
      let crds =
        done_condition "CRDsInstalled" "CRDsReady" "All workload CRDs installed" kn.generation in
      let complete =
        done_condition "MigrationComplete" "MigrationComplete" "Database migration job succeeded"
          kn.generation in
      record {
        moved = moved_at kn.status.phase kn.status;
        completed = set.find-set complete (lib.set_condition crds start) "MigrationComplete";
        installed =
            set.find-set complete (lib.set_condition crds start) "CRDsInstalled"
            ∙ set.find-set crds start "CRDsInstalled";
        others = λ type n m.
            other_condition set complete (lib.set_condition crds start) type n
            ∙ other_condition set crds start type m;
        services = refl;
        hash = refl;
        bindings = refl;
      }
