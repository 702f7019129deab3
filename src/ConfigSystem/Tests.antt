-- ===== src/ConfigSystem/Tests.antt =====
-- Runs of the configuration system, and the theorems at concrete inputs.
use advanced_golang_tutorial.Prelude.{
  ℕ, ◌≡◌, refl, true, false, List, [], ◌∷◌, none, some, arith, pos, same_text,
}
use advanced_golang_tutorial.ConfigSystem.Validation.{
  ApplicationConfig, rule_failed, timeout_validation, default_validation_rules, validate_config,
}
use advanced_golang_tutorial.ConfigSystem.Versions.{
  ConfigVersion, new_version, add_version, previous_version,
}
use advanced_golang_tutorial.ConfigSystem.Runs.{Event, update, monitor, fires, rolls_back, run}
use advanced_golang_tutorial.ConfigSystem.Sound.{IsSound}
use advanced_golang_tutorial.ConfigSystem.Sound.Steps.{run-IsSound}
use advanced_golang_tutorial.ConfigSystem.Rollback.{rollback_restores, rolled_back_returns}
use advanced_golang_tutorial.ConfigSystem.Endings.{Ends}
use advanced_golang_tutorial.ConfigSystem.{
  ConfigSystem, Strategy, RolloutStage, in_progress, started, new_system, load_initial_config,
  process_config_update, rollback_to_previous_version, monitor_rollout_progress,
}

-- A stage of the constructor's strategy: none has criteria of success.
abbrev stage_of : ℕ → RolloutStage ℕ
stage_of percent = record { traffic_percent = pos percent; success_criteria = none }

abbrev default_strategy : Strategy ℕ
default_strategy = record {
  stages = stage_of 10 ∷ stage_of 50 ∷ stage_of 100 ∷ [];
  max_duration = 1_800_000_000_000;
  rules = default_validation_rules;
}

abbrev sample_config : ℕ → ApplicationConfig
sample_config n = record {
  version = n ∷ [];
  checksum = n ∷ [];
  server = some (record { port = pos 8080; read_timeout = pos 30_000_000_000 });
  database = some (record { host = b'h' ∷ []; port = pos 5432 });
}

-- With these versions, the last one as its current version.
abbrev system_of : ℕ → List ConfigVersion → ℕ → ConfigSystem
system_of live versions count = record {
  current_config = some (sample_config live);
  pending_config = none;
  versions = record {
    versions = versions;
    current_version = count ∷ [];
    max_versions = 50;
    version_counter = count;
  };
  rollout = none;
  splitter = record { current_percent = pos 0; target_percent = pos 0; is_active = false };
  update_count = 0;
  rollback_history = [];
}

abbrev loaded : ConfigSystem
loaded = system_of 1 (new_version (sample_config 1) ∷ []) 1

loads : load_initial_config default_strategy (sample_config 1) new_system ≡ (none, loaded)
unfolding load_initial_config new_system validate_config add_version
loads = refl

-- A short read timeout is refused, although its rule is of the level "warning".
short_timeout :
    validate_config default_validation_rules (record (sample_config 1) {
      server = some (record { port = pos 8080; read_timeout = pos 999_999_999 });
    })
    ≡ some (
        rule_failed (record {
          type_name = timeout_validation;
          min_port = none;
          max_port = none;
          required = true;
          is_error = false;
        }))
unfolding validate_config
short_timeout = refl

loaded-IsSound : IsSound default_strategy loaded
unfolding validate_config
loaded-IsSound = record {
  current_accepted = refl;
  pending_accepted = tt;
  versions_accepted = (refl, tt);
  few_versions = omega arith;
  some_versions = omega arith;
  at_stage = tt;
}

abbrev events : List (Event ℕ)
events =
    update (some (sample_config 2)) 0
    ∷ monitor (λ k. true) 10
    ∷ monitor (λ k. true) 20
    ∷ fires
    ∷ update none 30
    ∷ rolls_back
    ∷ []

run-IsSound_example :
    (z' : ConfigSystem) × (run default_strategy events loaded ≡ some z')
    × IsSound default_strategy z'
run-IsSound_example = run-IsSound default_strategy events loaded (omega arith) loaded-IsSound

-- The first update waits at ten per cent; two rounds of the monitor make it current.
abbrev canary : ConfigSystem
canary =
    record (system_of 1 (new_version (sample_config 1) ∷ new_version (sample_config 2) ∷ []) 2) {
      pending_config = some (sample_config 2);
      rollout = some (record { start_time = 0; current_stage = 0; status = in_progress });
      splitter = record { current_percent = pos 0; target_percent = pos 10; is_active = true };
      update_count = 1;
    }

updates :
    process_config_update default_strategy (some (sample_config 2)) 0 loaded
    ≡ some (started, canary)
unfolding process_config_update validate_config add_version same_text
updates = refl

abbrev rounds : List (Event ℕ)
rounds = monitor (λ k. true) 10 ∷ monitor (λ k. true) 20 ∷ []

abbrev promoted : ConfigSystem
promoted = record canary {
  current_config = some (sample_config 2);
  rollout = some (record { start_time = 0; current_stage = 2; status = in_progress });
  splitter = record { current_percent = pos 0; target_percent = pos 100; is_active = true };
}

promotes : run default_strategy rounds canary ≡ some promoted
unfolding run monitor_rollout_progress
promotes = refl

loaded-Ends : Ends (new_version (sample_config 1)) loaded.versions
loaded-Ends = record { before = []; all = refl; few = omega arith; room = omega arith }

rollback_restores_example :
    (rollback_to_previous_version promoted).1.current_config ≡ some (sample_config 1)
rollback_restores_example =
    (rollback_restores default_strategy (new_version (sample_config 1)) (sample_config 2) 0 rounds
      loaded canary promoted loaded-Ends updates tt promotes).1

abbrev second_canary : ConfigSystem
second_canary = record canary {
  pending_config = some (sample_config 3);
  versions = record {
    versions =
        new_version (sample_config 1)
        ∷ new_version (sample_config 2)
        ∷ new_version (sample_config 3)
        ∷ [];
    current_version = 3 ∷ [];
    max_versions = 50;
    version_counter = 3;
  };
  rollout = some (record { start_time = 40; current_stage = 0; status = in_progress });
  update_count = 2;
}

updates_again :
    process_config_update default_strategy
      (some (sample_config 3))
      40
      (rollback_to_previous_version promoted).1
    ≡ some (started, second_canary)
unfolding process_config_update validate_config add_version same_text rollback_to_previous_version
    previous_version
updates_again = refl

no_events : run default_strategy [] second_canary ≡ some second_canary
unfolding run
no_events = refl

-- The third configuration is rolled back to the second one, which was rolled back before.
rolled_back_returns_example :
    ((rollback_to_previous_version promoted).1.current_config ≡ some (sample_config 1))
    × ((rollback_to_previous_version second_canary).1.current_config ≡ some (sample_config 2))
rolled_back_returns_example =
    rolled_back_returns default_strategy (new_version (sample_config 1)) (sample_config 2)
      (sample_config 3) 0 40 rounds [] loaded canary promoted second_canary second_canary
      loaded-Ends updates tt promotes updates_again tt no_events
