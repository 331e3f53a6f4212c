-- ===== src/Running/Ready.antt =====
-- What the phase says of the services (phaseRunning of
-- internal/controller/kubernaut_controller.go).
use kubernaut_operator.Base.{
  String, ◌≡◌, refl, sym, ◌≤◌, ◌==◌, ap, ◌∙◌, ◌⊎◌, inl, inr, Bool, true, false, Option, none, some,
  All, ◌↔◌, List, Bool-cases, if◌then◌else◌, arith,
}
use mathlib.Core.List.{map}
use kubernaut_operator.Kube.Op.{Result-cases, Op, ok, gets, bind_succeeds, bind_continues, ◌>>=◌}
use kubernaut_operator.Kube.Library.{Library}
use kubernaut_operator.Kube.Client.{Client}
use kubernaut_operator.Kubernaut.{
  Kubernaut, Phase, condition_false, Status, ServiceStatus, Condition, running, degraded,
}
use kubernaut_operator.Status.{
  State, Requeue, requeue_running, requeue_degraded, patch_status, phase_order, set_phase,
  put_condition,
}
use kubernaut_operator.Status.Phases.{IsStatusServer, patch_status_applies}
use kubernaut_operator.Validation.Checks.{Parses, ◌&◌}
use kubernaut_operator.Validation.Accept.{same, and_true}
use kubernaut_operator.Running.Read.{
  AreAnswered, read_services-AreAnswered, AreAnswered-name, all_ready_iff,
}
use kubernaut_operator.Running.{
  is_condition_true, running_status, warn_conditions, finish_running, read_services, phase_running,
  is_ready,
}

rank_bound : (phase : Phase) → phase_order phase ≤ 5
unfolding phase_order
rank_bound phase = ground arith

-- Neither phase is behind the other, so the one that is asked for is the one that is set.
set_phase_last :
    (ready : Bool) (status : Status)
    → (set_phase (if ready then running else degraded) status).phase
      ≡ (if ready then running else degraded)
unfolding set_phase phase_order
set_phase_last true status = let bound = rank_bound status.phase in ground arith
set_phase_last false status = let bound = rank_bound status.phase in ground arith

running_status_lem :
    (lib : Library) (services : List ServiceStatus) (ready : Bool) (a m : Condition)
    (kn : Kubernaut)
    → ((running_status lib services ready a m kn).services ≡ services)
      × ((running_status lib services ready a m kn).phase ≡ (if ready then running else degraded))
unfolding running_status put_condition
running_status_lem lib services ready a m kn =
    (unfold set_phase in refl, set_phase_last ready (record kn.status { services = services }))

module _ (lib : Library) {c : Client} (server : IsStatusServer c) where
  warn_keeps :
      (ansible alert_manager : Condition) (s : State c)
      → ((warn_conditions lib ansible alert_manager s).0 ≡ ok tt)
        × ((warn_conditions lib ansible alert_manager s).1.cr ≡ s.cr)
  unfolding warn_conditions
  warn_keeps ansible alert_manager s = elim (Bool-cases (ansible.status == condition_false)) [
    | inl a ↦ elim (Bool-cases (alert_manager.status == condition_false)) [
      | inl b ↦ rw (a, b) (refl, refl)
      | inr b ↦ rw (a, b) (refl, refl)
    ]
    | inr a ↦ elim (Bool-cases (alert_manager.status == condition_false)) [
      | inl b ↦ rw (a, b) (refl, refl)
      | inr b ↦ rw (a, b) (refl, refl)
    ]
  ]

  -- A run that ended: the next run and the status that it left.
  finish_lem :
      (services : List ServiceStatus) (ready : Bool) (ansible alert_manager : Condition)
      (s : State c) (q : Requeue)
      → (finish_running lib services ready ansible alert_manager s).0 ≡ ok q
      → (q ≡ (if ready then requeue_running else requeue_degraded))
        × ((finish_running lib services ready ansible alert_manager s).1.cr.status
            ≡ running_status lib services ready ansible alert_manager s.cr)
  unfolding finish_running
  finish_lem services ready ansible alert_manager s q =
      let change = running_status lib services ready ansible alert_manager in
      let t = (patch_status change s).1 in
      let (told, kept) = warn_keeps ansible alert_manager t in
      elim (Result-cases (patch_status change s).0) [
        | inl (u, e) ↦
            rw (e, told)
              (λ h. (
                cc,
                ap (λ (kn : Kubernaut). kn.status) kept ∙ patch_status_applies server change s e,
              ))
        | inr (x, e) ↦ rw e (λ h. cc)
      ]

  -- Every status is ready, and the condition "NetworkPolicyReady" is "True".
  abbrev pub IsReady : Kubernaut → List ServiceStatus → Type 0
  IsReady kn services =
      All (λ (x : ServiceStatus). x.ready ≡ true) services
      & Parses (λ (condition : Condition). condition.status ≡ "True")
          (lib.find_condition "NetworkPolicyReady" kn.status.conditions)

  condition_iff :
      (found : Option Condition)
      → (is_condition_true found ≡ true)
        ↔ Parses (λ (condition : Condition). condition.status ≡ "True") found
  condition_iff none = (λ h. cc, λ h. absurd h)
  condition_iff (some condition) = same condition.status "True"

  is_ready_iff :
      (kn : Kubernaut) (services : List ServiceStatus)
      → (is_ready lib kn services ≡ true) ↔ IsReady kn services
  is_ready_iff kn services = and_true (all_ready_iff services) (condition_iff _)

  -- What phaseRunning says of a run that ended.
  pub record IsReported (components : List String) (s : State c) (q : Requeue) (status : Status)
      : Type 0 where
    pub services : List ServiceStatus
    pub read_to : c.World
    pub answered : AreAnswered c s.cr components s.world services read_to
    pub named : map (λ (x : ServiceStatus). x.name) services ≡ components
    pub reported : status.services ≡ services
    pub decided :
        (IsReady s.cr services × (q.after ≡ 60000000) × (status.phase ≡ running))
        ⊎ (¬ IsReady s.cr services × (q.after ≡ 15000000) × (status.phase ≡ degraded))

  decide_lem :
      (kn : Kubernaut) (services : List ServiceStatus) (q : Requeue) (phase : Phase)
      → let ready = is_ready lib kn services in
        q ≡ (if ready then requeue_running else requeue_degraded)
        → phase ≡ (if ready then running else degraded)
        → (IsReady kn services × (q.after ≡ 60000000) × (phase ≡ running))
          ⊎ (¬ IsReady kn services × (q.after ≡ 15000000) × (phase ≡ degraded))
  decide_lem kn services q phase a b =
      let (sound, complete) = is_ready_iff kn services in
      elim (Bool-cases (is_ready lib kn services)) [
        | inl y ↦ inl (sound y, ap (λ (r : Requeue). r.after) (rw y at a), rw y at b)
        | inr n ↦ inr (
          λ h. let e : true ≡ false = sym (complete h) ∙ n in cc,
          ap (λ (r : Requeue). r.after) (rw n at a),
          rw n at b,
        )
      ]

  -- If phaseRunning ends without an error, the status lists the active components in their order, one
  -- Deployment having been read for each. A component is ready exactly if its Deployment has as many
  -- ready replicas as it asks for, one where it names no number; one without a Deployment is not
  -- ready. The phase is `running`, with the next run after 60 seconds, if all of them are ready and
  -- the condition "NetworkPolicyReady" is "True"; otherwise it is `degraded`, with the next run after
  -- 15 seconds.
  -- This assumes that an accepted status patch answers with what was sent: the base is current.
  pub phase_running_lem :
      (components : List String) (validate_ansible validate_alert_manager : Op (State c) Condition)
      (s : State c) (q : Requeue)
      → (phase_running lib components validate_ansible validate_alert_manager s).0 ≡ ok q
      → IsReported components s q
          (phase_running lib components validate_ansible validate_alert_manager s).1.cr.status
  unfolding phase_running
  phase_running_lem components va vm s q h =
      let with_services : List ServiceStatus → Op (State c) Requeue = λ services.
        gets (λ s. s.cr) >>= λ kn.
        va >>= λ a. vm >>= λ m. finish_running lib services (is_ready lib kn services) a m in
      let (services, t, read, h1) = bind_succeeds (read_services components) with_services s h in
      let with_ansible : Condition → Op (State c) Requeue =
        λ a. vm >>= λ m. finish_running lib services (is_ready lib t.cr services) a m in
      let (a, t1, ran_a, h2) = bind_succeeds va with_ansible t h1 in
      let with_manager : Condition → Op (State c) Requeue =
        λ m. finish_running lib services (is_ready lib t.cr services) a m in
      let (m, t2, ran_m, h3) = bind_succeeds vm with_manager t1 h2 in
      let (next, left) = finish_lem services (is_ready lib t.cr services) a m t2 q h3 in
      let final : (phase_running lib components va vm s).1.cr.status
          ≡ running_status lib services (is_ready lib t.cr services) a m t2.cr =
        ap (λ p. p.1.cr.status)
          (bind_continues (read_services components) with_services s t services read
            ∙ bind_continues va with_ansible t t1 a ran_a
            ∙ bind_continues vm with_manager t1 t2 m ran_m)
        ∙ left in
      let (listed, decided) =
        running_status_lem lib services (is_ready lib t.cr services) a m t2.cr in
      let (answered, kept) = read_services-AreAnswered components s t services read in
      record {
        services = services;
        read_to = t.world;
        answered = answered;
        named = AreAnswered-name c s.cr components s.world t.world services answered;
        reported = ap (λ (x : Status). x.services) final ∙ listed;
        decided = rw kept at (
            decide_lem t.cr services q (phase_running lib components va vm s).1.cr.status.phase next
              (ap (λ (x : Status). x.phase) final ∙ decided));
      }
