-- ===== src/GrpcClient/Breaker.antt =====
-- CircuitBreaker of the gRPC client. The threshold and the failures are int64 patterns.
use advanced_golang_tutorial.Prelude.{
  ℕ, ◌+◌, Bool, true, false, if◌then◌else◌, ltb, add_i64, le_i64,
}
pub mod History

pub data State : Type 0 where
  closed : State
  opened : State
  half_open : State

pub record CircuitBreaker : Type 0 where
  pub threshold : ℕ
  pub timeout : ℕ
  pub failures : ℕ
  pub last_fail_time : ℕ
  pub state : State

-- Its last failure is Go's zero time.
unfoldable pub new_circuit_breaker : ℕ → ℕ → CircuitBreaker
new_circuit_breaker threshold timeout = record {
  threshold = threshold;
  timeout = timeout;
  failures = 0;
  last_fail_time = 0;
  state = closed;
}

set_state : State → CircuitBreaker → CircuitBreaker
set_state s b = record b { state = s }

unfoldable pub can_execute : ℕ → CircuitBreaker → Bool × CircuitBreaker
unfolding set_state
can_execute now b = elim b.state [
  | closed ↦ (true, b)
  | opened ↦
      if ltb (b.last_fail_time + b.timeout) now then (true, set_state half_open b) else (false, b)
  | half_open ↦ (true, b)
]

unfoldable pub on_success : CircuitBreaker → CircuitBreaker
unfolding set_state
on_success b = set_state closed (record b { failures = 0 })

unfoldable pub on_failure : ℕ → CircuitBreaker → CircuitBreaker
unfolding set_state
on_failure now b =
    let counted = record b { failures = add_i64 b.failures 1; last_fail_time = now } in
    if le_i64 b.threshold counted.failures then set_state opened counted else counted
