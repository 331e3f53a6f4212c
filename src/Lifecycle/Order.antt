-- ===== src/Lifecycle/Order.antt =====
-- The order of the phases (reconcilePhases of internal/controller/kubernaut_controller.go), with the
-- policies and the migration as they are modelled.
use kubernaut_operator.Base.{
  ℕ, String, ◌≡◌, refl, ap, ◌∙◌, ◌⊎◌, inl, inr, Bool, true, List, arith, nat_eqb, Bool-cases,
}
use kubernaut_operator.Kube.Object.{Object, ServiceSpec}
use kubernaut_operator.Kube.Op.{Result, Result-cases, ok, Op}
use kubernaut_operator.Kube.Library.{Library, Texts}
use kubernaut_operator.Kube.Client.{Client, IsApiServer}
use kubernaut_operator.Kubernaut.{Kubernaut}
use kubernaut_operator.Status.{State, Requeue, no_requeue}
use kubernaut_operator.Status.Phases.{IsStatusServer}
use kubernaut_operator.Migration.{phase_migrate}
use kubernaut_operator.Migration.Gate.{HasPassed}
use kubernaut_operator.Migration.Phase.{phase_migrate_passes}
use kubernaut_operator.Policy.Section.{Names}
use kubernaut_operator.Policy.Render.{PolicySpec}
use kubernaut_operator.Policy.Reconcile.{
  rendered_policies, apply_policies, reconcile_network_policies,
}
use kubernaut_operator.Policy.Order.{Reconciled, only_applied, then_pruned, network_policies_order}
use kubernaut_operator.Lifecycle.{Phases, refresh, unless_requeued, reconcile_phases}

is_none : (q : Requeue) → nat_eqb q.after 0 ≡ true → q ≡ no_requeue
is_none q y =
    let later : ℕ → Requeue = λ n. record { after = n } in
    let zero_left : q.after ≡ 0 = ground arith in ap later zero_left

module _ {c : Client} where
  -- The run ends before phaseDeploy: with any other phases from there on it would be the same.
  abbrev pub StopsEarly : Phases c → State c → Type 0
  StopsEarly phases s =
      (deploy : Op (State c) (Unit {0})) (run : Op (State c) Requeue)
      → reconcile_phases (record phases { deploy = deploy; run = run }) s
        ≡ reconcile_phases phases s

  -- The validation asked for no later run, the policies were then reconciled without an error, and
  -- the migration behind them asked for no later run.
  record Prepared (phases : Phases c) (s : State c) : Type 0 where
    validated : (phases.validate s).0 ≡ ok no_requeue
    middle : State c
    isolated : phases.policies (refresh (phases.validate s).1).1 ≡ (ok tt, middle)
    migrated : (phases.migrate middle).0 ≡ ok no_requeue

  phases-cases : (phases : Phases c) (s : State c) → StopsEarly phases s ⊎ Prepared phases s
  unfolding reconcile_phases unless_requeued
  phases-cases phases s = elim (Result-cases (phases.validate s).0) [
    | inr (x, e) ↦ inl (λ deploy run. rw e refl)
    | inl (q, e) ↦ elim (Bool-cases (nat_eqb q.after 0)) [
      | inr later ↦ inl (λ deploy run. rw (e, later) refl)
      | inl now ↦
          let s1 = (phases.validate s).1 in
          elim (Result-cases (refresh s1).0) [
            | inr (x, f) ↦ inl (λ deploy run. rw (e, now, f) refl)
            | inl (u, f) ↦
                let s2 = (refresh s1).1 in
                elim (Result-cases (phases.policies s2).0) [
                  | inr (x, g) ↦ inl (λ deploy run. rw (e, now, f, g) refl)
                  | inl (u, g) ↦
                      let s3 = (phases.policies s2).1 in
                      elim (Result-cases (phases.migrate s3).0) [
                        | inr (x, h) ↦ inl (λ deploy run. rw (e, now, f, g, h) refl)
                        | inl (r, h) ↦ elim (Bool-cases (nat_eqb r.after 0)) [
                          | inr wait ↦ inl (λ deploy run. rw (e, now, f, g, h, wait) refl)
                          | inl go ↦ inr (record {
                            validated = e ∙ ap ok (is_none q now);
                            middle = s3;
                            isolated = cc g;
                            migrated = h ∙ ap ok (is_none r go);
                          })
                        ]
                      ]
                ]
          ]
    ]
  ]

module _ (lib : Library) (texts : Texts) (build : Kubernaut → Result Object)
    (same_spec same_labels : Object → Object → Bool) (names : Names) (encode : PolicySpec → String)
    (services : Kubernaut → List ServiceSpec) {c : Client} where
  -- The phases with the modelled policies and migration.
  abbrev pub modelled_phases :
      (validate : Op (State c) Requeue) (prereqs deploy : Op (State c) (Unit {0}))
      (run : Op (State c) Requeue)
      → Phases c
  modelled_phases validate prereqs deploy run = record {
    validate = validate;
    policies = reconcile_network_policies lib same_spec same_labels names encode services;
    migrate = phase_migrate lib texts build prereqs;
    deploy = deploy;
    run = run;
  }

  -- What holds where the deployment begins.
  pub record IsReadyToDeploy (validate : Op (State c) Requeue) (prereqs : Op (State c) (Unit {0}))
      (s : State c) : Type 0 where
    pub validated : (validate s).0 ≡ ok no_requeue
    pub objects : List Object
    pub is_rendered :
        rendered_policies names encode services (refresh (validate s).1).1.cr ≡ ok objects
    pub in_place : State c
    pub applied :
        apply_policies lib same_spec same_labels objects (refresh (validate s).1).1
        ≡ (ok tt, in_place)
    pub isolated : State c
    pub reconciled :
        reconcile_network_policies lib same_spec same_labels names encode services
          (refresh (validate s).1).1
        ≡ (ok tt, isolated)
    pub before_job : State c
    pub ensured : prereqs isolated ≡ (ok tt, before_job)
    pub migrated : HasPassed lib texts build before_job

  module _ (api : IsApiServer c) (server : IsStatusServer c) where
    isolated-applied :
        (s t : State c)
        → reconcile_network_policies lib same_spec same_labels names encode services s ≡ (ok tt, t)
        → Reconciled lib same_spec same_labels
            (rendered_policies names encode services s.cr)
            s
            (ok tt, t)
        → (objects : List Object) × (mid : State c) × (rendered_policies names encode services s.cr
            ≡ ok objects)
          × (apply_policies lib same_spec same_labels objects s ≡ (ok tt, mid))
    isolated-applied s t e (only_applied x fails h) = cc
    isolated-applied s t e (then_pruned objects mid is_rendered done h k) =
        (objects, mid, is_rendered, done)

    -- Whatever validation, deployment and last phase are given: either the run ends before
    -- phaseDeploy, so that it would be the same with any other deployment and last phase, or, in
    -- this order, the validation asked for no later run, every rendered NetworkPolicy was ensured
    -- and the policies were reconciled without an error, the prerequisites of the migration were
    -- ensured, and the migration let the reconciliation go on, with all that HasPassed says of its
    -- Job.
    pub deploy_gate :
        (validate : Op (State c) Requeue) (prereqs deploy : Op (State c) (Unit {0}))
        (run : Op (State c) Requeue) (s : State c)
        → StopsEarly (modelled_phases validate prereqs deploy run) s
          ⊎ IsReadyToDeploy validate prereqs s
    deploy_gate validate prereqs deploy run s =
        elim (phases-cases (modelled_phases validate prereqs deploy run) s) [
          | inl early ↦ inl early
          | inr p ↦
              let t = (refresh (validate s).1).1 in
              let (objects, mid, is_rendered, done) = isolated-applied t p.middle p.isolated (
                rw p.isolated at
                  (network_policies_order lib same_spec same_labels api names encode services t)) in
              let (before, after, ensured, has_passed, status, ran) =
                phase_migrate_passes lib texts build server prereqs p.middle p.migrated in
              inr (record {
                validated = p.validated;
                objects = objects;
                is_rendered = is_rendered;
                in_place = mid;
                applied = done;
                isolated = p.middle;
                reconciled = p.isolated;
                before_job = before;
                ensured = ensured;
                migrated = has_passed;
              })
        ]
