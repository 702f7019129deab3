-- ===== src/GrpcClient.antt =====
-- The gRPC client of 06_grpc_concurrent_programming/client/client.go: its breaker, its retries and
-- the stream of users. Errors of gRPC, of contexts and of operations are a parameter, and so is
-- their status code, which status.Code of the grpc module reads.
use advanced_golang_tutorial.Prelude.{
  ℕ, ◌+◌, Bool, true, false, List, [], ◌∷◌, Option, none, some, if◌then◌else◌, add_i64,
}
pub mod Breaker
pub mod Retry
pub mod Calls
pub mod Pool
pub mod Stream
mod Tests
use Breaker.{CircuitBreaker, can_execute, on_success, on_failure}
use Retry.{RetryPolicy, Ended, succeeded, canceled, gave_up, Loop, attempts, max_attempts}

pub data CallError (E : Type 0) : Type 0 where
  circuit_open : CallError E
  failed : E → CallError E

pub record Client : Type 0 where
  pub breaker : CircuitBreaker
  pub breaker_trips : ℕ

-- What a call of executeWithRetry leaves: its error, the client, the state that the operation
-- works on, and how often the operation ran.
pub record Called (S E : Type 0) : Type 0 where
  pub error : Option (CallError E)
  pub client : Client
  pub state : S
  pub ran : ℕ

module _ {S E : Type 0} where
  pub settle : ℕ → Client → Loop S E → Ended E → Called S E
  settle later c l succeeded = record {
    error = none;
    client = record c { breaker = on_success c.breaker };
    state = l.state;
    ran = l.ran;
  }
  settle later c l (canceled e) = record {
    error = some (failed e);
    client = c;
    state = l.state;
    ran = l.ran;
  }
  settle later c l (gave_up last) = record {
    error = elim last [ none ↦ none | some e ↦ some (failed e) ];
    client = record c { breaker = on_failure later c.breaker };
    state = l.state;
    ran = l.ran;
  }

  -- `now` is the instant of CanExecute, and `later` that of OnFailure.
  unfoldable pub execute_with_retry :
      (E → Bool)
      → RetryPolicy
      → (ℕ → Option E)
      → (S → Option E × S)
      → ℕ
      → ℕ
      → Client
      → S
      → Called S E
  unfolding settle
  execute_with_retry is_retryable policy pause operation now later c s =
      let (admitted, b) = can_execute now c.breaker in
      let l =
        attempts is_retryable policy pause operation (max_attempts policy) 0 policy.initial_backoff
          none s in
      if admitted then settle later (record c { breaker = b }) l l.ended else record {
        error = some circuit_open;
        client = record { breaker = b; breaker_trips = add_i64 c.breaker_trips 1 };
        state = s;
        ran = 0;
      }
