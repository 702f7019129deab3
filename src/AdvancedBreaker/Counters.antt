-- ===== src/AdvancedBreaker/Counters.antt =====
-- CircuitBreakerMetrics and updateMetrics. Counters are uint64; durations are int64 patterns.
use advanced_golang_tutorial.Prelude.{
  ℕ, ◌+◌, Bool, true, false, ltb, ◌==◌, if◌then◌else◌, u64, add_i64, div_i64,
}

pub record Metrics : Type 0 where
  pub total_requests : ℕ
  pub successful_requests : ℕ
  pub failed_requests : ℕ
  pub consecutive_failures : ℕ
  pub last_failure_time : ℕ
  pub last_success_time : ℕ
  pub average_response_time : ℕ
  pub total_response_time : ℕ
  pub slow_request_count : ℕ
  pub circuit_open_count : ℕ
  pub last_state_change : ℕ

abbrev pub metrics_from : ℕ → Metrics
metrics_from now = record {
  total_requests = 0;
  successful_requests = 0;
  failed_requests = 0;
  consecutive_failures = 0;
  last_failure_time = 0;
  last_success_time = 0;
  average_response_time = 0;
  total_response_time = 0;
  slow_request_count = 0;
  circuit_open_count = 0;
  last_state_change = now;
}

record_result : Bool → ℕ → Metrics → Metrics
record_result true now m = record m {
  successful_requests = u64 (m.successful_requests + 1);
  consecutive_failures = 0;
  last_success_time = now;
}
record_result false now m = record m {
  failed_requests = u64 (m.failed_requests + 1);
  consecutive_failures = u64 (m.consecutive_failures + 1);
  last_failure_time = now;
}

unfoldable pub update_metrics : ℕ → Bool → ℕ → ℕ → Metrics → Metrics
unfolding record_result
update_metrics slow_call_threshold success duration now m =
    let total = add_i64 m.total_response_time duration in
    let m' = record_result success now (record m { total_response_time = total }) in
    record m' {
      slow_request_count =
          if ltb slow_call_threshold duration
          then u64 (m.slow_request_count + 1)
          else m.slow_request_count;
      average_response_time =
          if m.total_requests == 0 then m.average_response_time else div_i64 total m.total_requests;
    }
