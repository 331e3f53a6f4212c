-- ===== src/Examples/Content.antt =====
-- Phases, stamps, hashes and the live content at concrete inputs.
use kubernaut_operator.Base.{◌≡◌, ◌≢◌, ◌≤◌, ◌⊎◌, ◌↔◌, false, [], ◌∷◌}
use kubernaut_operator.Kube.Object.{config_map}
use kubernaut_operator.Kubernaut.{Status, error, running, migrating}
use kubernaut_operator.Drift.{body_drifted}
use kubernaut_operator.Drift.Preserve.{Holds, config_map_drift_iff}
use kubernaut_operator.Status.{set_phase, phase_order}
use kubernaut_operator.Status.Phases.{set_phase_order}
use kubernaut_operator.Examples.Library.{library}
use kubernaut_operator.Examples.Samples.{fresh_status}

abbrev running_status : Status
running_status = record fresh_status { phase = running }

set_phase_order_example :
    ((migrating ≢ error)
      → (phase_order running ≤ phase_order (set_phase migrating running_status).phase)
        × (((set_phase migrating running_status).phase ≡ running)
            ⊎ ((set_phase migrating running_status).phase ≡ migrating)))
    × ((set_phase error running_status).phase ≡ error)
    × ((running ≡ error) → (set_phase migrating running_status).phase ≡ migrating)
set_phase_order_example = set_phase_order migrating running_status

config_map_drift_iff_example :
    (body_drifted library
        (config_map (("key", "value") ∷ []) [])
        (config_map (("key", "other") ∷ []) [])
      ≡ false)
    ↔ Holds (config_map (("key", "value") ∷ []) []) (config_map (("key", "other") ∷ []) [])
config_map_drift_iff_example =
    config_map_drift_iff library (("key", "value") ∷ []) [] (("key", "other") ∷ []) []
