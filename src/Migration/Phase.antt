-- ===== src/Migration/Phase.antt =====
-- When phaseMigrate lets the reconciliation go on (phaseMigrate of
-- internal/controller/kubernaut_controller.go).
use mathlib.Core.Path.{subst}
use kubernaut_operator.Base.{
  ℕ, ◌≢◌, ◌≡◌, refl, sym, ap, ◌∙◌, inl, inr, Bool-cases, nat_eqb, arith, true, false, ◌∷◌,
}
use kubernaut_operator.Kube.Object.{Object}
use kubernaut_operator.Kube.Op.{
  Result, Result-cases, Op, ok, pure, Error, bind_succeeds, bind_continues, then_state,
  is_ownership_conflict,
}
use kubernaut_operator.Kube.Library.{Library, Texts, IsConditionSet}
use kubernaut_operator.Kube.Client.{Client}
use kubernaut_operator.Kubernaut.{Kubernaut, failed}
use kubernaut_operator.Status.{State, Requeue, no_requeue, patch_status}
use kubernaut_operator.Status.Phases.{IsStatusServer, patch_status_applies}
use kubernaut_operator.Migration.{
  ensure_migration_job, prereqs_failed, migration_done, phase_migrate, migrated_status,
}
use kubernaut_operator.Migration.Gate.{HasPassed, migration_gate, set_condition_requeues}
use kubernaut_operator.Migration.Completed.{IsCompleted, migrated_lem}

module _ (lib : Library) (texts : Texts) (build : Kubernaut → Result Object) {c : Client}
    (server : IsStatusServer c) where
  prereqs_stop : (e : Error) (s : State c) → (prereqs_failed lib texts build e s).0 ≢ ok no_requeue
  unfolding prereqs_failed
  prereqs_stop e s = elim (Bool-cases (is_ownership_conflict e)) [
    | inl y ↦ rw y (
        set_condition_requeues lib texts "CRDsInstalled" "CRDInstallFailed" (failed "" e)
          (record s {
            events = record { warning = true; reason = "OwnershipConflict" } ∷ s.events;
          }))
    | inr n ↦
        rw n (set_condition_requeues lib texts "CRDsInstalled" "CRDInstallFailed" (failed "" e) s)
  ]

  -- Where the Job let the reconciliation go on, the status says so.
  done_lem :
      (q : Requeue) (s : State c)
      → (migration_done lib texts build q s).0 ≡ ok no_requeue
      → (q ≡ no_requeue)
        × ((migration_done lib texts build q s).1.cr.status ≡ migrated_status lib s.cr)
  unfolding migration_done
  done_lem q s = elim (Bool-cases (nat_eqb q.after 0)) [
    | inr n ↦ rw n (λ h.
        let same_q : q ≡ no_requeue = cc in
        let none_left : q.after ≡ 0 = ap (λ (r : Requeue). r.after) same_q in
        absurd (ground (arith, none_left)))
    | inl y ↦ rw y (λ h.
        let none_left : q.after ≡ 0 = ground arith in
        let told = record s {
          events = record { warning = false; reason = "MigrationComplete" } ∷ s.events;
        } in
        let patch : Op (State c) (Unit {0}) = patch_status (migrated_status lib) in
        let later : ℕ → Requeue = λ n. record { after = n } in
        let (u, t, patched, rest) = bind_succeeds patch (λ u. pure no_requeue) told h in
        (
          ap later none_left,
          ap (λ (t : State c). t.cr.status) (then_state patch no_requeue told)
              ∙ patch_status_applies server (migrated_status lib) told (ap (λ p. p.0) patched),
        ))
  ]

  -- A run that asks for no later one: the prerequisites, the Job, and the status patch.
  pub phase_migrate_passes :
      (prereqs : Op (State c) (Unit {0})) (s : State c)
      → (phase_migrate lib texts build prereqs s).0 ≡ ok no_requeue
      → (before after : State c) × (prereqs s ≡ (ok tt, before))
        × HasPassed lib texts build before
        × ((phase_migrate lib texts build prereqs s).1.cr.status ≡ migrated_status lib after.cr)
        × (ensure_migration_job lib texts build before ≡ (ok no_requeue, after))
  unfolding phase_migrate
  phase_migrate_passes prereqs s = elim (Result-cases (prereqs s).0) [
    | inr (x, e) ↦ rw e (λ h. absurd (prereqs_stop x (prereqs s).1 h))
    | inl (u, e) ↦ rw e (λ h.
        let before = (prereqs s).1 in
        let (q, after, ran, done) =
          bind_succeeds (ensure_migration_job lib texts build) (migration_done lib texts build)
            before h in
        let (same_q, status) = done_lem q after done in
        let passed : ensure_migration_job lib texts build before ≡ (ok no_requeue, after) =
          rw same_q at ran in
        (
          before,
          after,
          refl,
          migration_gate lib texts build before (ap (λ p. p.0) passed),
          ap (λ p. p.1.cr.status)
                (bind_continues (ensure_migration_job lib texts build)
                  (migration_done lib texts build) before after q ran)
              ∙ status,
          passed,
        ))
  ]

module _ (lib : Library) (texts : Texts) (build : Kubernaut → Result Object) {c : Client}
    (server : IsStatusServer c) (set : IsConditionSet lib) where
  -- If phaseMigrate asks for no later run, the prerequisites were ensured without an error,
  -- ensureMigrationJob let the reconciliation go on, with all that HasPassed says of the Job, and the
  -- status was then changed as IsCompleted says: the phase is `deploying`, or still `running` or
  -- `degraded` if it was that; the conditions "MigrationComplete" and "CRDsInstalled" are "True" for
  -- the generation of the custom resource; and every other condition, the services and the recorded
  -- hash are what they were behind ensureMigrationJob.
  -- This assumes that an accepted status patch answers with what was sent: the base is current.
  pub phase_migrate_gate :
      (prereqs : Op (State c) (Unit {0})) (s : State c)
      → (phase_migrate lib texts build prereqs s).0 ≡ ok no_requeue
      → (before after : State c) × (prereqs s ≡ (ok tt, before))
        × HasPassed lib texts build before
        × (ensure_migration_job lib texts build before ≡ (ok no_requeue, after))
        × IsCompleted lib after.cr (phase_migrate lib texts build prereqs s).1.cr.status
  phase_migrate_gate prereqs s h =
      let (before, after, ensured, job, status, ran) =
        phase_migrate_passes lib texts build server prereqs s h in
      (
        before,
        after,
        ensured,
        job,
        ran,
        subst (IsCompleted lib after.cr) (sym status) (migrated_lem lib set after.cr),
      )
