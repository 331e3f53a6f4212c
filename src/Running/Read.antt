-- ===== src/Running/Read.antt =====
-- What is read of the Deployments (the loop of phaseRunning in
-- internal/controller/kubernaut_controller.go, DeploymentName of internal/resources/common.go).
use Prim.Native.String.{◌++◌}
use mathlib.Core.Path.{subst}
use mathlib.Core.List.{map}
use kubernaut_operator.Base.{
  ℕ, ◌≤◌, String, ◌≡◌, ◌↔◌, refl, sym, ap, ◌∙◌, inl, inr, Bool-cases, true, false, Option, none,
  some, List, [], ◌∷◌, All, contains, arith, if◌then◌else◌,
}
use kubernaut_operator.Kube.Object.{Object, Body, deployment}
use kubernaut_operator.Kube.Op.{
  Result, Result-cases, Op, ok, err, pure, is_not_found, bind_succeeds, bind_continues, ◌>>=◌,
}
use kubernaut_operator.Kube.Client.{Client}
use kubernaut_operator.Kubernaut.{Kubernaut, ServiceStatus}
use kubernaut_operator.Status.{State}
use kubernaut_operator.Running.{
  service_status, missing_service, all_ready, deployment_name, read_service, read_services,
}

-- The component has no Deployment: not ready, and no replicas.
abbrev pub IsMissing : String → ServiceStatus → Type 0
IsMissing component status =
    (status.name ≡ component)
    × (status.ready ≡ false)
    × (status.ready_replicas ≡ 0)
    × (status.desired_replicas ≡ 0)

-- The replicas that are asked for: one where the Deployment names no number.
abbrev pub IsDesired : Option ℕ → ℕ → Type 0
IsDesired none desired = desired ≡ 1
IsDesired (some replicas) desired = desired ≡ replicas

-- A Deployment is ready exactly if it has the replicas that are asked for.
abbrev pub IsStatusOf : String → Body → ServiceStatus → Type 0
IsStatusOf component (deployment replicas ready_replicas) status =
    (status.name ≡ component)
    × (status.ready_replicas ≡ ready_replicas)
    × IsDesired replicas status.desired_replicas
    × ((status.ready ≡ true) ↔ (status.desired_replicas ≤ ready_replicas))
IsStatusOf component _ status = IsMissing component status

abbrev pub IsAnswered : String → Result Object → ServiceStatus → Type 0
IsAnswered component (ok o) status = IsStatusOf component o.body status
IsAnswered component (err e) status = (is_not_found e ≡ true) × IsMissing component status

-- The name of a component's Deployment: the controllers have a suffix.
abbrev pub deployed_as : String → String
deployed_as component =
    if contains
      ("aianalysis" ∷ "signalprocessing" ∷ "remediationorchestrator" ∷ "workflowexecution"
        ∷ "effectivenessmonitor" ∷ "notification" ∷ [])
      component
    then component ++ "-controller"
    else component

module _ (c : Client) where
  abbrev pub deployment_of : Kubernaut → String → Op c.World Object
  deployment_of kn component =
      c.get (record { kind = "Deployment"; namespace = kn.namespace; name = deployed_as component })

  -- One status for each component, in order, by the answers of the reads that start at `w` and end
  -- at `v`.
  abbrev pub AreAnswered : Kubernaut → List String → c.World → List ServiceStatus → c.World → Type 0
  AreAnswered kn [] w [] v = w ≡ v
  AreAnswered kn (component ∷ components) w (status ∷ statuses) v =
      let answer = deployment_of kn component w in
      IsAnswered component answer.0 status × AreAnswered kn components answer.1 statuses v
  AreAnswered kn _ w _ v = ⊥

service_status-IsStatusOf :
    (component : String) (body : Body) → IsStatusOf component body (service_status component body)
unfolding service_status
service_status-IsStatusOf component (deployment none ready_replicas) =
    (refl, refl, refl, (λ h. ground arith, λ h. ground arith))
service_status-IsStatusOf component (deployment (some n) ready_replicas) =
    (refl, refl, refl, (λ h. ground arith, λ h. ground arith))
service_status-IsStatusOf component _ = (refl, refl, refl, refl)

module _ {c : Client} where
  read_service-IsAnswered :
      (component : String) (s t : State c) (status : ServiceStatus)
      → read_service component s ≡ (ok status, t)
      → let answer = deployment_of c s.cr component s.world in
        IsAnswered component answer.0 status × (record s { world = answer.1 } ≡ t)
  unfolding read_service deployment_name
  read_service-IsAnswered component s t status h =
      let answer = deployment_of c s.cr component s.world in
      let after = record s { world = answer.1 } in
      elim (Result-cases answer.0) [
        | inl (o, e) ↦
            let whole : (ok (service_status component o.body), after) ≡ (ok status, t) =
              rw e at h in
            let same : service_status component o.body ≡ status = cc in
            rw e (
              subst (IsStatusOf component o.body) same (service_status-IsStatusOf component o.body),
              ap (λ p. p.1) whole,
            )
        | inr (x, e) ↦ elim (Bool-cases (is_not_found x)) [
          | inl y ↦
              let whole : (ok (missing_service component), after) ≡ (ok status, t) =
                rw (e, y) at h in
              let same : missing_service component ≡ status = cc in
              rw e (
                (y, subst (IsMissing component) same (refl, refl, refl, refl)),
                ap (λ p. p.1) whole,
              )
          | inr n ↦ absurd (let whole : err x ≡ ok status = ap (λ p. p.0) (rw (e, n) at h) in cc)
        ]
      ]

  pub read_services-AreAnswered :
      (components : List String) (s t : State c) (services : List ServiceStatus)
      → read_services components s ≡ (ok services, t)
      → AreAnswered c s.cr components s.world services t.world × (t.cr ≡ s.cr)
  unfolding read_services
  read_services-AreAnswered [] s t services h =
      let same : [] ≡ services = cc in
      let moved : s ≡ t = ap (λ p. p.1) h in
      rw (← same) (ap (λ (x : State c). x.world) moved, ap (λ (x : State c). x.cr) (sym moved))
  read_services-AreAnswered (component ∷ components) s t services h =
      let then_others : ServiceStatus → Op (State c) (List ServiceStatus) =
        λ status. read_services components >>= λ rest. pure (status ∷ rest) in
      let (status, s1, first, after_first) =
        bind_succeeds (read_service component) then_others s (ap (λ p. p.0) h) in
      let next : then_others status s1 ≡ (ok services, t) =
        sym (bind_continues (read_service component) then_others s s1 status first) ∙ h in
      let (rest, s2, others, last) =
        bind_succeeds (read_services components) (λ rest. pure (status ∷ rest)) s1 after_first in
      let whole : (ok (status ∷ rest), s2) ≡ (ok services, t) =
        sym (
          bind_continues (read_services components) (λ rest. pure (status ∷ rest)) s1 s2 rest
            others)
        ∙ next in
      let same : status ∷ rest ≡ services = cc in
      let (answered, moved) = read_service-IsAnswered component s s1 status first in
      let tail =
        subst
          (λ (x : State c). AreAnswered c x.cr components x.world rest s2.world × (s2.cr ≡ x.cr))
          (sym moved) (read_services-AreAnswered components s1 s2 rest others) in
      let ended : s2 ≡ t = ap (λ p. p.1) whole in rw (← same, ← ended) ((answered, tail.0), tail.1)

IsStatusOf-name :
    (component : String) (body : Body) (status : ServiceStatus)
    → IsStatusOf component body status
    → status.name ≡ component
IsStatusOf-name component (deployment replicas ready_replicas) status h = h.0
IsStatusOf-name component _ status h = h.0

IsAnswered-name :
    (component : String) (answer : Result Object) (status : ServiceStatus)
    → IsAnswered component answer status
    → status.name ≡ component
IsAnswered-name component (ok o) status h = IsStatusOf-name component o.body status h
IsAnswered-name component (err e) status h = h.1.0

-- The names of the statuses are the components.
pub AreAnswered-name :
    (c : Client) (kn : Kubernaut) (components : List String) (w v : c.World)
    (services : List ServiceStatus)
    → AreAnswered c kn components w services v
    → map (λ (x : ServiceStatus). x.name) services ≡ components
AreAnswered-name c kn [] w v [] h = refl
AreAnswered-name c kn [] w v (status ∷ services) h = absurd h
AreAnswered-name c kn (component ∷ components) w v [] h = absurd h
AreAnswered-name c kn (component ∷ components) w v (status ∷ services) h =
    let answer = deployment_of c kn component w in
    cc (
      IsAnswered-name component answer.0 status h.0,
      AreAnswered-name c kn components answer.1 v services h.1,
    )

pub all_ready_iff :
    (services : List ServiceStatus)
    → (all_ready services ≡ true) ↔ All (λ (x : ServiceStatus). x.ready ≡ true) services
all_ready_iff [] = (λ h. tt, λ h. refl)
all_ready_iff (status ∷ services) =
    let rest = all_ready_iff services in
    elim (Bool-cases status.ready) [
      | inl e ↦ rw e (λ h. (refl, rest.0 h), λ h. rest.1 h.1)
      | inr e ↦ rw e (λ h. cc, λ h. cc)
    ]
