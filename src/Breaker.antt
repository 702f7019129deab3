-- ===== src/Breaker.antt =====
-- The circuit breaker of
-- 07_error_handling_and_monitoring/01_circuit_breaker/circuit_breaker.go.
-- An instant is the number of nanoseconds since Go's zero time, which is 0, and does not wrap. Each
-- call takes the instants that the code reads from the clock. `changes` records the calls of
-- OnStateChange, newest first. The mutex makes each operation one step.
use advanced_golang_tutorial.Prelude.{
  ℕ, ◌+◌, Bool, true, false, not, ◌&&◌, List, ◌∷◌, Option, none, some, ltb, leb, ◌==◌,
  if◌then◌else◌, u64, add_i64,
}
pub mod New
pub mod Execute
pub mod System
pub mod InFlight
pub mod Verdict
pub mod Resets
pub mod Changes
mod Tests

pub data State : Type 0 where
  closed half_open opened : State

pub record Counts : Type 0 where
  pub requests : ℕ
  pub total_successes : ℕ
  pub total_failures : ℕ
  pub consecutive_successes : ℕ
  pub consecutive_failures : ℕ
  pub total_duration : ℕ

abbrev pub zero_counts : Counts
zero_counts = record {
  requests = 0;
  total_successes = 0;
  total_failures = 0;
  consecutive_successes = 0;
  consecutive_failures = 0;
  total_duration = 0;
}

-- `recovered` is the error that ExecuteWithTimeout makes of a panic, `cause` one of the caller's.
pub data Error (E : Type 0) : Type 0 where
  circuit_breaker_open : Error E
  too_many_requests : Error E
  open_timeout : Error E
  recovered : Error E
  cause : E → Error E

-- A Go result `(any, error)`.
abbrev pub Reply : Type 0 → Type 0 → Type 0
Reply V E = Option V × Option (Error E)

-- The breaker's settings as the constructor leaves them: no duration is negative any more.
pub record Config (V E : Type 0) : Type 0 where
  pub max_requests : ℕ
  pub interval : ℕ
  pub timeout : ℕ
  pub ready_to_trip : Counts → Bool
  pub observed : Bool
  pub is_successful : Option (Error E) → Bool
  pub fallback : Option (Error E → Reply V E)
  pub slow_call_threshold : ℕ

pub record Breaker (V E : Type 0) : Type 0 where
  pub config : Config V E
  pub state : State
  pub generation : ℕ
  pub counts : Counts
  pub expiry : ℕ
  pub changes : List (State × State)

abbrev pub same_state : State → State → Bool
same_state closed closed = true
same_state half_open half_open = true
same_state opened opened = true
same_state _ _ = false

pub succeeded_counts : Counts → Counts
succeeded_counts c = record c {
  total_successes = u64 (c.total_successes + 1);
  consecutive_successes = u64 (c.consecutive_successes + 1);
  consecutive_failures = 0;
}

pub failed_counts : Counts → Counts
failed_counts c = record c {
  total_failures = u64 (c.total_failures + 1);
  consecutive_failures = u64 (c.consecutive_failures + 1);
  consecutive_successes = 0;
}

module _ {V E : Type 0} where
  -- The switch of toNewGeneration. The zero instant stands for no expiry.
  pub expiry_for : State → Config V E → ℕ → ℕ
  expiry_for closed c now = if c.interval == 0 then 0 else now + c.interval
  expiry_for opened c now = now + c.timeout
  expiry_for half_open c now = 0

  pub to_new_generation : ℕ → Breaker V E → Breaker V E
  unfolding expiry_for
  to_new_generation now b = record b {
    generation = u64 (b.generation + 1);
    counts = zero_counts;
    expiry = expiry_for b.state b.config now;
  }

  pub set_state : State → ℕ → Breaker V E → Breaker V E
  unfolding to_new_generation
  set_state s now b =
      let next = to_new_generation now (record b { state = s }) in
      if same_state b.state s
      then b
      else if b.config.observed
      then record next { changes = (b.state, s) ∷ b.changes }
      else next

  -- The switch of currentState.
  roll : State → ℕ → Breaker V E → Breaker V E
  unfolding set_state
  roll closed now b = if not (b.expiry == 0) && ltb b.expiry now then to_new_generation now b else b
  roll opened now b = if ltb b.expiry now then set_state half_open now b else b
  roll half_open now b = b

  -- The code returns the state and the generation too: they are fields of the result.
  pub current_state : ℕ → Breaker V E → Breaker V E
  unfolding roll
  current_state now b = roll b.state now b

  count_request : Breaker V E → Breaker V E
  count_request b = record b {
    counts = record (b.counts) { requests = u64 (b.counts.requests + 1) };
  }

  admit : State → Breaker V E → ℕ × Option (Error E) × Breaker V E
  admit opened b = (b.generation, some circuit_breaker_open, b)
  admit half_open b =
      if leb b.config.max_requests b.counts.requests
      then (b.generation, some too_many_requests, b)
      else (b.generation, none, count_request b)
  admit closed b = (b.generation, none, count_request b)

  pub before_request : ℕ → Breaker V E → ℕ × Option (Error E) × Breaker V E
  unfolding current_state count_request admit
  before_request now b = let rolled = current_state now b in admit rolled.state rolled

  pub on_success : State → ℕ → Breaker V E → Breaker V E
  unfolding succeeded_counts set_state
  on_success s now b =
      let counted = record b { counts = succeeded_counts b.counts } in
      if same_state s half_open then set_state closed now counted else counted

  trip : State → ℕ → Breaker V E → Breaker V E
  unfolding set_state
  trip closed now b = if b.config.ready_to_trip b.counts then set_state opened now b else b
  trip half_open now b = set_state opened now b
  trip opened now b = b

  pub on_failure : State → ℕ → Breaker V E → Breaker V E
  unfolding failed_counts trip
  on_failure s now b = trip s now (record b { counts = failed_counts b.counts })

  -- The last statement of afterRequest, which runs after a change of state too.
  add_duration : ℕ → Breaker V E → Breaker V E
  add_duration duration b = record b {
    counts = record (b.counts) { total_duration = add_i64 b.counts.total_duration duration };
  }

  pub after_request : ℕ → Bool → ℕ → ℕ → Breaker V E → Breaker V E
  unfolding current_state on_success on_failure add_duration
  after_request before success duration now b =
      let rolled = current_state now b in
      if rolled.generation == before
      then add_duration duration (
          if success
          then on_success rolled.state now rolled
          else on_failure rolled.state now rolled)
      else rolled

  pub reset : ℕ → Breaker V E → Breaker V E
  unfolding to_new_generation
  reset now b = record (to_new_generation now b) { state = closed }
