-- ===== src/AdvancedBreaker/New.antt =====
-- NewAdvancedCircuitBreaker. A zero setting takes its default; a float64 is zero if it is the zero
-- of the parameter.
use advanced_golang_tutorial.Prelude.{ℕ, ◌*◌, [], ◌==◌, if◌then◌else◌, Float64}
use advanced_golang_tutorial.AdvancedBreaker.{closed, Config, Breaker}
use advanced_golang_tutorial.AdvancedBreaker.Counters.{metrics_from}
use advanced_golang_tutorial.AdvancedBreaker.Sliding.{empty_window}

abbrev second : ℕ
second = 1_000_000_000

abbrev cmp_or : ℕ → ℕ → ℕ
cmp_or a b = if a == 0 then b else a

module _ (f : Float64) where
  open f use {Carrier, of_ℕ, divide, is_zero}

  abbrev cmp_or_float : Carrier → Carrier → Carrier
  cmp_or_float a b = if is_zero a then b else a

  pub with_defaults : Config f → Config f
  with_defaults c = record {
    failure_threshold = cmp_or c.failure_threshold 3;
    failure_rate_threshold = cmp_or_float c.failure_rate_threshold (divide (of_ℕ 1) (of_ℕ 2));
    slow_call_threshold = cmp_or c.slow_call_threshold (5 * second);
    slow_call_rate_threshold = cmp_or_float c.slow_call_rate_threshold (divide (of_ℕ 1) (of_ℕ 2));
    minimum_request_count = cmp_or c.minimum_request_count 10;
    open_timeout = cmp_or c.open_timeout (30 * second);
    max_concurrent_requests = cmp_or c.max_concurrent_requests 100;
    sliding_window_size = cmp_or c.sliding_window_size 100;
    observes_state = c.observes_state;
    observes_results = c.observes_results;
  }

  unfoldable pub new_advanced_circuit_breaker : Config f → ℕ → Breaker f
  unfolding with_defaults empty_window
  new_advanced_circuit_breaker c now =
      let config = with_defaults c in
      record {
        config = config;
        state = closed;
        metrics = metrics_from now;
        state_expiry = 0;
        window = empty_window config.sliding_window_size;
        active_requests = 0;
        generation = 0;
        callbacks = [];
      }
