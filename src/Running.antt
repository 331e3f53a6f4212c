-- ===== src/Running.antt =====
-- The readiness of the services and the phase that it decides (phaseRunning of
-- internal/controller/kubernaut_controller.go). The active components and the two conditions
-- on the configuration are arguments.
pub mod Read
pub mod Ready
use Prim.Native.String.{◌++◌}
use kubernaut_operator.Base.{
  contains, ℕ, String, Bool, true, false, ◌&&◌, ◌||◌, Option, none, some, List, [], ◌∷◌, ◌==◌, leb,
  or_else, if◌then◌else◌,
}
use kubernaut_operator.Kube.Object.{Object, Key, Body, deployment}
use kubernaut_operator.Kube.Op.{
  Error, Result, ok, err, Op, pure, fail, gets, attempt, is_not_found, ◌>>=◌, ◌>>◌,
}
use kubernaut_operator.Kube.Library.{Library}
use kubernaut_operator.Kube.Client.{Client}
use kubernaut_operator.Kubernaut.{
  Kubernaut, Status, ServiceStatus, Condition, running, degraded, condition_true, condition_false,
}
use kubernaut_operator.Status.{
  State, Requeue, requeue_running, requeue_degraded, call, emit, set_phase, put_condition,
  patch_status,
}

-- The status of a component whose Deployment is missing.
abbrev pub missing_service : String → ServiceStatus
missing_service component = record {
  name = component;
  ready = false;
  ready_replicas = 0;
  desired_replicas = 0;
}

-- The status of a component by its Deployment; `ptr.Deref(dep.Spec.Replicas, 1)` is the default.
unfoldable pub service_status : String → Body → ServiceStatus
service_status component (deployment replicas ready_replicas) = record {
  name = component;
  ready = leb (or_else replicas 1) ready_replicas;
  ready_replicas = ready_replicas;
  desired_replicas = or_else replicas 1;
}
service_status component _ = missing_service component

abbrev pub all_ready : List ServiceStatus → Bool
all_ready [] = true
all_ready (status ∷ rest) = status.ready && all_ready rest

abbrev pub is_condition_true : Option Condition → Bool
is_condition_true none = false
is_condition_true (some condition) = condition.status == condition_true

-- controllerSuffix
abbrev pub controller_suffix : List String
controller_suffix =
    "aianalysis" ∷ "signalprocessing" ∷ "remediationorchestrator" ∷ "workflowexecution"
    ∷ "effectivenessmonitor" ∷ "notification" ∷ []

-- DeploymentName
unfoldable pub deployment_name : String → String
deployment_name component =
    if contains controller_suffix component then component ++ "-controller" else component

abbrev pub deployment_key : Kubernaut → String → Key
deployment_key kn component = record {
  kind = "Deployment";
  namespace = kn.namespace;
  name = deployment_name component;
}

module _ {c : Client} where
  abbrev pub one_service : String → Result Object → Op (State c) ServiceStatus
  one_service component (ok dep) = pure (service_status component dep.body)
  one_service component (err e) =
      if is_not_found e then pure (missing_service component) else fail e

  -- One round of the loop over the active components.
  unfoldable pub read_service : String → Op (State c) ServiceStatus
  read_service component = do
    kn ← gets (λ s. s.cr)
    r ← attempt (call (c.get (deployment_key kn component)))
    one_service component r

  -- The loop over the active components.
  unfoldable pub read_services : List String → Op (State c) (List ServiceStatus)
  read_services [] = pure []
  read_services (component ∷ components) = do
    status ← read_service component
    rest ← read_services components
    pure (status ∷ rest)

-- The closure of phaseRunning.
unfoldable pub running_status :
    Library → List ServiceStatus → Bool → Condition → Condition → Kubernaut → Status
running_status lib services ready ansible alert_manager kn = put_condition lib alert_manager (
    put_condition lib ansible
      (set_phase (if ready then running else degraded) (record kn.status { services = services })))

-- finalAllReady
abbrev pub is_ready : Library → Kubernaut → List ServiceStatus → Bool
is_ready lib kn services =
    all_ready services
    && is_condition_true (lib.find_condition "NetworkPolicyReady" kn.status.conditions)

module _ (lib : Library) {c : Client} where
  abbrev pub warn_if_false : Condition → String → Op (State c) (Unit {0})
  warn_if_false condition reason =
      if condition.status == condition_false then emit true reason else pure tt

  -- The two warnings behind the status patch.
  unfoldable pub warn_conditions : Condition → Condition → Op (State c) (Unit {0})
  warn_conditions ansible alert_manager = do
    warn_if_false ansible "AnsibleConfigInvalid"
    warn_if_false alert_manager "AlertManagerAuthNotConfigured"

  -- phaseRunning from the status patch on
  unfoldable pub finish_running :
      List ServiceStatus → Bool → Condition → Condition → Op (State c) Requeue
  finish_running services ready ansible alert_manager = do
    patch_status (running_status lib services ready ansible alert_manager)
    warn_conditions ansible alert_manager
    pure (if ready then requeue_running else requeue_degraded)

  -- phaseRunning
  unfoldable pub phase_running :
      List String → Op (State c) Condition → Op (State c) Condition → Op (State c) Requeue
  phase_running components validate_ansible validate_alert_manager = do
    services ← read_services components
    kn ← gets (λ s. s.cr)
    ansible ← validate_ansible
    alert_manager ← validate_alert_manager
    finish_running services (is_ready lib kn services) ansible alert_manager
