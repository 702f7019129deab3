-- ===== src/ConfigSystem/Runs.antt =====
-- The system under its update loop, its monitor, its triggers and its API. An update, a round of the
-- monitor, a trigger and a rollback are a step each, although they take and release several locks: a
-- run is one in which these come one after the other and do not overlap.
use advanced_golang_tutorial.Prelude.{ℕ, Bool, List, [], ◌∷◌, Option, none, some}
use advanced_golang_tutorial.ConfigSystem.Validation.{ApplicationConfig}
use advanced_golang_tutorial.ConfigSystem.{
  ConfigSystem, Strategy, process_config_update, monitor_rollout_progress, trigger_auto_rollback,
  rollback_to_previous_version,
}

-- The criteria that a round of the monitor finds met are its own.
pub data Event (K : Type 0) : Type 0 where
  update : Option ApplicationConfig → ℕ → Event K
  monitor : (K → Bool) → ℕ → Event K
  fires : Event K
  rolls_back : Event K

module _ {K : Type 0} (strategy : Strategy K) where
  unfoldable pub step : Event K → ConfigSystem → Option ConfigSystem
  step (update c now) z = elim (process_config_update strategy c now z) [
    | none ↦ none
    | some (outcome, z') ↦ some z'
  ]
  step (monitor meets now) z = monitor_rollout_progress strategy meets now z
  step fires z = some (trigger_auto_rollback z)
  step rolls_back z = some (rollback_to_previous_version z).1

  unfoldable pub run : List (Event K) → ConfigSystem → Option ConfigSystem
  unfolding step
  run [] z = some z
  run (e ∷ es) z = elim (step e z) [ none ↦ none | some z' ↦ run es z' ]
