-- ===== src/Deployment/Recorded.antt =====
-- ee/controllers/phdeployment_controller.go: the history of a deployment, updateHistory.
use primehub_controller.Prelude.{◌-◌, List, ℤ, [], ◌∷◌, if◌then◌else◌, ltb, length, take}
use primehub_controller.Deployment.{Codec, PhDeploymentSpec, History}

-- The history with the entry that updateHistory may add.
abbrev pub with_entry : Codec → PhDeploymentSpec → ℤ → List History → List History
with_entry codec spec now [] = record { time = now; spec = spec } ∷ []
with_entry codec spec now (latest ∷ older) =
    if codec.deep_equal spec latest.spec
    then latest ∷ older
    else record { time = now; spec = spec } ∷ latest ∷ older

-- The list without its last entry, where it is longer than 32.
abbrev pub trimmed : List History → List History
trimmed history = if ltb 32 (length history) then take (length history - 1) history else history

-- func updateHistory
unfoldable pub update_history : Codec → PhDeploymentSpec → ℤ → List History → List History
update_history codec spec now history = trimmed (with_entry codec spec now history)
