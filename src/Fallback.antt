-- ===== src/Fallback.antt =====
-- The fallback manager of 07_error_handling_and_monitoring/ans_02/fallback_manager.go. What the
-- external service, the fallback provider and the random choice answer are parameters of a call,
-- and the numbers of type float64 are those of a parameter. A request is the text of its cache key;
-- the counts and durations of the configuration are not negative.
use advanced_golang_tutorial.Prelude.{
  ℕ, ◌-◌, Bool, true, false, Option, none, some, if◌then◌else◌, ltb, leb, ◌==◌, Float64,
}
pub mod Sliding
pub mod Manager
pub mod Execution
pub mod Runs
pub mod Successes
pub mod Clearing
pub mod Frames
pub mod Windows
pub mod Rings
pub mod Serving
pub mod Recovery
pub mod Workers
mod Tests
use Sliding.{
  FallbackMode, normal_mode, fallback, transition_mode, empty_window, get_effective_window_size,
}
use Manager.{
  FallbackManagerConfig, FallbackManager, Error, manager_stopped, already_running, not_running,
  zero_counters, calculate_current_error_rate, same_mode, count_change,
}

abbrev pub or_default : ℕ → ℕ → ℕ
or_default n d = if n == 0 then d else n

module _ {F : Float64} {D : Type 0} where
  -- With the floating-point defaults 0.3 and 0.1.
  unfoldable pub new_fallback_manager :
      F.Carrier → F.Carrier → FallbackManagerConfig F → ℕ → FallbackManager F D
  unfolding empty_window
  new_fallback_manager threshold recovery cfg now =
      let size = or_default cfg.sliding_window_size 100 in
      record {
        config = record {
          error_rate_threshold =
              if F.is_zero cfg.error_rate_threshold then threshold else cfg.error_rate_threshold;
          recovery_threshold =
              if F.is_zero cfg.recovery_threshold then recovery else cfg.recovery_threshold;
          minimum_request_count = or_default cfg.minimum_request_count 20;
          sliding_window_size = size;
          evaluation_interval = or_default cfg.evaluation_interval 10000000000;
          transition_duration = or_default cfg.transition_duration 30000000000;
          max_concurrent_workers = or_default cfg.max_concurrent_workers 50;
        };
        cache = λ key. none;
        counters = zero_counters;
        current_mode = normal_mode;
        last_mode_change = now;
        window = empty_window size;
        active_workers = 0;
        is_running = false;
        is_cancelled = false;
      }

  unfoldable pub start : FallbackManager F D → Option Error × FallbackManager F D
  start m =
      if m.is_cancelled
      then (some manager_stopped, m)
      else if m.is_running
      then (some already_running, m)
      else (none, record m { is_running = true })

  unfoldable pub stop : FallbackManager F D → Option Error × FallbackManager F D
  stop m =
      if m.is_running
      then (none, record m { is_running = false; is_cancelled = true })
      else (some not_running, m)

  unfoldable pub transition_to : FallbackMode → ℕ → FallbackManager F D → FallbackManager F D
  unfolding same_mode count_change
  transition_to mode now m = if same_mode m.current_mode mode then m else record m {
    current_mode = mode;
    last_mode_change = now;
    counters = count_change mode m.counters;
  }

  unfoldable pub is_recovered : FallbackManager F D → Bool
  unfolding calculate_current_error_rate
  is_recovered m = F.le (calculate_current_error_rate F m.window) m.config.recovery_threshold

  -- The switch of evaluateMode, by the current mode.
  unfoldable pub evaluate_in : FallbackMode → ℕ → FallbackManager F D → FallbackManager F D
  unfolding is_recovered transition_to
  evaluate_in normal_mode now m =
      if F.le m.config.error_rate_threshold (calculate_current_error_rate F m.window)
      then transition_to fallback now m
      else m
  evaluate_in fallback now m = if is_recovered m then transition_to transition_mode now m else m
  evaluate_in transition_mode now m =
      if leb m.config.transition_duration (now - m.last_mode_change)
      then if is_recovered m then transition_to normal_mode now m else transition_to fallback now m
      else m

  unfoldable pub evaluate_mode : ℕ → FallbackManager F D → FallbackManager F D
  unfolding get_effective_window_size evaluate_in
  evaluate_mode now m =
      if ltb (get_effective_window_size m.window) m.config.minimum_request_count
      then m
      else evaluate_in m.current_mode now m

  unfoldable pub clear_cache : FallbackManager F D → FallbackManager F D
  clear_cache m = record m { cache = λ key. none }

  -- The calls that run are still counted.
  unfoldable pub reset : ℕ → FallbackManager F D → FallbackManager F D
  unfolding empty_window clear_cache
  reset now m = clear_cache (record m {
    current_mode = normal_mode;
    last_mode_change = now;
    counters = zero_counters;
    window = empty_window m.config.sliding_window_size;
  })
