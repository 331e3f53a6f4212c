-- ===== src/Active.antt =====
-- The components that a spec asks for (AllComponents, isComponentActive, ActiveComponents of
-- internal/resources/common.go).
use kubernaut_operator.Base.{String, Bool, true, List, [], ◌∷◌, ◌==◌, if◌then◌else◌}
use kubernaut_operator.Kubernaut.{
  Spec, is_api_frontend_enabled, is_gateway_enabled, is_console_enabled, is_metadata_cache_enabled,
}

-- AllComponents
abbrev pub all_components : List String
all_components =
    "gateway" ∷ "data-storage" ∷ "aianalysis" ∷ "signalprocessing" ∷ "remediationorchestrator"
    ∷ "workflowexecution" ∷ "effectivenessmonitor" ∷ "notification" ∷ "kubernaut-agent"
    ∷ "authwebhook" ∷ "apifrontend" ∷ "fleetmetadatacache" ∷ []

-- isComponentActive
unfoldable pub is_component_active : Spec → String → Bool
is_component_active spec component =
    if component == "apifrontend"
    then is_api_frontend_enabled spec
    else if component == "gateway"
    then is_gateway_enabled spec
    else if component == "kubernaut-console"
    then is_console_enabled spec
    else if component == "fleetmetadatacache"
    then is_metadata_cache_enabled spec
    else true

abbrev pub active_of : Spec → List String → List String
active_of spec [] = []
active_of spec (component ∷ components) =
    let rest = active_of spec components in
    if is_component_active spec component then component ∷ rest else rest

-- ActiveComponents
unfoldable pub active_components : Spec → List String
unfolding is_component_active
active_components spec = active_of spec all_components
