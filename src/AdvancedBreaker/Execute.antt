-- ===== src/AdvancedBreaker/Execute.antt =====
-- Execute and ExecuteWithTimeout. What other goroutines do to the breaker while the request runs
-- is a function on breakers.
use advanced_golang_tutorial.Prelude.{
  ℕ, Bool, true, false, ◌&&◌, Option, none, some, leb, sub_i64, Float64,
}
pub mod Agreement
use advanced_golang_tutorial.AdvancedBreaker.{
  Error, request_timeout, Breaker, before_request, after_request,
}

-- An error that a call returns: the breaker's, the request's, the context's, or that of a panic.
pub data Failure (E : Type 0) : Type 0 where
  refused : Error → Failure E
  cause : E → Failure E
  recovered : Failure E

pub data Outcome (E : Type 0) : Type 0 where
  returned : Option E → Outcome E
  panicked : Outcome E

-- Which channel of the select is ready first, and the time that has passed.
pub data Race (E : Type 0) : Type 0 where
  finished : Outcome E → ℕ → Race E
  timed_out : ℕ → Race E
  cancelled : E → ℕ → Race E

pub as_failure : {E : Type 0} → Option E → Option (Failure E)
as_failure none = none
as_failure (some e) = some (cause e)

pub is_nil : {E : Type 0} → Option (Failure E) → Bool
is_nil none = true
is_nil (some e) = false

-- requestErr and the result of Execute, which has no name: the return statement alone writes it.
pub record Frame (E : Type 0) : Type 0 where
  pub request_error : Option (Failure E)
  pub result : Option (Failure E)

-- The request and the return statement, neither of which is completed where the request panics.
pub run_request : {E : Type 0} → Outcome E → Frame E → Frame E
unfolding as_failure
run_request (returned e) locals = record { request_error = as_failure e; result = as_failure e }
run_request panicked locals = locals

-- The deferred function, which keeps a panic as requestErr.
pub recover_panic : {E : Type 0} → Outcome E → Frame E → Frame E
recover_panic (returned e) locals = locals
recover_panic panicked locals = record locals { request_error = some recovered }

pub execute_request : {E : Type 0} → Outcome E → Frame E
unfolding run_request recover_panic
execute_request outcome =
    recover_panic outcome (run_request outcome (record { request_error = none; result = none }))

-- The goroutine of ExecuteWithTimeout sends a recovered panic as an error.
pub sent_error : {E : Type 0} → Outcome E → Option (Failure E)
unfolding as_failure
sent_error (returned e) = as_failure e
sent_error panicked = some recovered

race_duration : {E : Type 0} → Race E → ℕ
race_duration (finished outcome duration) = duration
race_duration (timed_out duration) = duration
race_duration (cancelled e duration) = duration

race_reply : {E : Type 0} → Race E → Option (Failure E)
unfolding sent_error
race_reply (finished outcome duration) = sent_error outcome
race_reply (timed_out duration) = some (refused request_timeout)
race_reply (cancelled e duration) = some (cause e)

module _ (f : Float64) where
  unfoldable pub leave : Breaker f → Breaker f
  leave b = record b { active_requests = sub_i64 b.active_requests 1 }

module _ (f : Float64) {E : Type 0} where
  -- `now` and `later` are the instants before and after the request.
  pub execute :
      (Breaker f → Breaker f) → Outcome E → ℕ → ℕ → ℕ → Breaker f → Option (Failure E) × Breaker f
  unfolding leave is_nil execute_request
  execute others outcome now duration later b =
      let (refusal, b') = before_request f now b in
      elim refusal [
        | some e ↦ (some (refused e), b')
        | none ↦
            let locals = execute_request outcome in
            let success =
              is_nil locals.request_error && leb duration b.config.slow_call_threshold in
            (locals.result, leave f (after_request f success duration later (others b')))
      ]

  race_success : Breaker f → Race E → Bool
  unfolding is_nil sent_error
  race_success b (finished outcome duration) =
      is_nil (sent_error outcome) && leb duration b.config.slow_call_threshold
  race_success b (timed_out duration) = false
  race_success b (cancelled e duration) = false

  pub execute_with_timeout :
      (Breaker f → Breaker f) → Race E → ℕ → ℕ → Breaker f → Option (Failure E) × Breaker f
  unfolding leave race_success race_duration race_reply
  execute_with_timeout others race now later b =
      let (refusal, b') = before_request f now b in
      elim refusal [
        | some e ↦ (some (refused e), b')
        | none ↦ (
          race_reply race,
          leave f (after_request f (race_success b race) (race_duration race) later (others b')),
        )
      ]
