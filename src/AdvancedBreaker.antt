-- ===== src/AdvancedBreaker.antt =====
-- The circuit breaker with a sliding window of
-- 07_error_handling_and_monitoring/ans_01/circuit_breaker_advanced.go.
-- An instant is the number of nanoseconds since Go's zero time, and one critical section of the
-- mutex reads the clock once. The durations of the configuration are not negative. `callbacks`
-- records the goroutines that are started for OnStateChange and OnRequestResult, newest first.
use advanced_golang_tutorial.Prelude.{
  ℕ, ◌+◌, ◌%◌, Bool, true, false, not, List, [], ◌∷◌, Option, none, some, ltb, leb, ◌==◌,
  if◌then◌else◌, u64, add_i64, sub_i64, div_i64, lt_i64, le_i64, length, set, take, replicate,
  count_if, Float64,
}
pub mod Counters
pub mod Sliding
pub mod Execute
pub mod New
pub mod Transitions
pub mod System
pub mod Active
mod Tests
use Counters.{Metrics, metrics_from, update_metrics}
use Sliding.{
  RequestResult, Window, zero_result, add_to_window, effective_window_size, failures, slow_calls,
}

pub data State : Type 0 where
  closed opened half_open : State

pub data Callback : Type 0 where
  state_change : State → State → Callback
  request_result : Bool → ℕ → Callback

pub data Error : Type 0 where
  circuit_open too_many_requests request_timeout : Error

abbrev pub same_state : State → State → Bool
same_state closed closed = true
same_state opened opened = true
same_state half_open half_open = true
same_state _ _ = false

module _ (f : Float64) where
  open f use {Carrier, of_ℕ, divide, le}

  pub record Config : Type 0 where
    pub failure_threshold : ℕ
    pub failure_rate_threshold : Carrier
    pub slow_call_threshold : ℕ
    pub slow_call_rate_threshold : Carrier
    pub minimum_request_count : ℕ
    pub open_timeout : ℕ
    pub max_concurrent_requests : ℕ
    pub sliding_window_size : ℕ
    pub observes_state : Bool
    pub observes_results : Bool

  pub record Breaker : Type 0 where
    pub config : Config
    pub state : State
    pub metrics : Metrics
    pub state_expiry : ℕ
    pub window : Window
    pub active_requests : ℕ
    pub generation : ℕ
    pub callbacks : List Callback

  pub rate : ℕ → ℕ → Carrier
  rate n size = if size == 0 then of_ℕ 0 else divide (of_ℕ n) (of_ℕ size)

  -- The three tests, from the figures that they read.
  abbrev pub trips : Config → ℕ → ℕ → ℕ → ℕ → Bool
  trips c size consecutive failed slow =
      if lt_i64 size c.minimum_request_count
      then false
      else if leb c.failure_threshold consecutive
      then true
      else if le c.failure_rate_threshold (rate failed size)
      then true
      else le c.slow_call_rate_threshold (rate slow size)

  unfoldable pub should_trip_to_open : Breaker → Bool
  unfolding effective_window_size failures slow_calls
  should_trip_to_open b =
      trips b.config (effective_window_size b.window) b.metrics.consecutive_failures
        (failures b.window) (slow_calls b.window)

  enter : State → ℕ → Breaker → Breaker
  enter opened now b = record b {
    state_expiry = now + b.config.open_timeout;
    metrics = record (b.metrics) { circuit_open_count = u64 (b.metrics.circuit_open_count + 1) };
  }
  enter half_open now b = record b { state_expiry = 0 }
  enter closed now b = record b {
    state_expiry = 0;
    metrics = record (b.metrics) { consecutive_failures = 0 };
  }

  unfoldable pub transition_to : State → ℕ → Breaker → Breaker
  unfolding enter
  transition_to s now b =
      let moved = enter s now (record b {
        state = s;
        generation = u64 (b.generation + 1);
        metrics = record (b.metrics) { last_state_change = now };
      }) in
      if same_state b.state s
      then b
      else if b.config.observes_state
      then record moved { callbacks = state_change b.state s ∷ b.callbacks }
      else moved

  unfoldable pub update_state : ℕ → Breaker → Breaker
  unfolding transition_to
  update_state now b =
      if same_state b.state opened
      then if ltb b.state_expiry now then transition_to half_open now b else b
      else b

  -- After the refusal of an open breaker, the tests on the number of active requests.
  refusal : Breaker → Option Error
  refusal b =
      if same_state b.state opened
      then some circuit_open
      else if le_i64 b.config.max_concurrent_requests b.active_requests
      then some too_many_requests
      else if same_state b.state half_open
      then if lt_i64 0 b.active_requests then some too_many_requests else none
      else none

  count_request : Breaker → Breaker
  count_request b = record b {
    active_requests = add_i64 b.active_requests 1;
    metrics = record (b.metrics) { total_requests = u64 (b.metrics.total_requests + 1) };
  }

  unfoldable pub before_request : ℕ → Breaker → Option Error × Breaker
  unfolding refusal count_request
  before_request now b =
      let updated = update_state now b in
      elim (refusal updated) [ some e ↦ (some e, updated) | none ↦ (none, count_request updated) ]

  evaluate : State → Bool → ℕ → Breaker → Breaker
  unfolding transition_to
  evaluate closed success now b = if should_trip_to_open b then transition_to opened now b else b
  evaluate half_open true now b = transition_to closed now b
  evaluate half_open false now b = transition_to opened now b
  evaluate opened success now b = b

  unfoldable pub evaluate_state_transition : Bool → ℕ → Breaker → Breaker
  unfolding evaluate
  evaluate_state_transition success now b = evaluate b.state success now b

  -- The breaker with the result in its metrics and in its window.
  noted : Bool → ℕ → ℕ → Breaker → Breaker
  noted success duration now b = record b {
    metrics = update_metrics b.config.slow_call_threshold success duration now b.metrics;
    window =
        add_to_window
          (record {
            success = success;
            duration = duration;
            timestamp = now;
            is_slow_call = ltb b.config.slow_call_threshold duration;
          })
          b.window;
  }

  call_back : Bool → ℕ → Breaker → Breaker
  call_back success duration b =
      if b.config.observes_results
      then record b { callbacks = request_result success duration ∷ b.callbacks }
      else b

  unfoldable pub after_request : Bool → ℕ → ℕ → Breaker → Breaker
  unfolding noted call_back
  after_request success duration now b =
      call_back success duration
        (evaluate_state_transition success now (noted success duration now b))

  unfoldable pub reset : ℕ → Breaker → Breaker
  reset now b = record b {
    state = closed;
    state_expiry = 0;
    metrics = metrics_from now;
    window = record {
      requests = replicate b.config.sliding_window_size zero_result;
      index = 0;
      full = false;
    };
  }
