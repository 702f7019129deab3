-- ===== src/Breaker/Execute.antt =====
-- Execute and ExecuteWithTimeout. The request and the select statement enter by their outcome,
-- and what other goroutines do to the breaker while the request runs as a function on breakers.
use advanced_golang_tutorial.Prelude.{
  ℕ, Bool, false, ◌&&◌, Option, none, some, ltb, leb, if◌then◌else◌,
}
use advanced_golang_tutorial.Breaker.{
  Error, open_timeout, recovered, cause, Reply, Breaker, before_request, after_request,
}
pub mod Agreement

pub data Outcome (V E : Type 0) : Type 0 where
  returned : Reply V E → Outcome V E
  panicked : Outcome V E

-- What Execute hands to its caller: a reply, or the panic that it raises again.
pub data Answer (V E : Type 0) : Type 0 where
  replied : Reply V E → Answer V E
  repanicked : Answer V E

-- Which channel of the select is ready first.
pub data Race (V E : Type 0) : Type 0 where
  finished : Outcome V E → ℕ → Race V E
  timed_out : Race V E
  cancelled : E → Race V E

module _ {V E : Type 0} where
  pub refuse : Option (Error E → Reply V E) → Error E → Reply V E
  refuse none e = (none, some e)
  refuse (some fallback) e = fallback e

  -- A slow success counts as a failure.
  pub judged : Breaker V E → Option (Error E) → ℕ → Bool
  judged b e duration =
      let success = b.config.is_successful e in
      if success && ltb b.config.slow_call_threshold duration then false else success

  execute_outcome : Outcome V E → ℕ → ℕ → ℕ → Breaker V E → Answer V E × Breaker V E
  unfolding judged
  execute_outcome (returned (v, e)) generation duration later b =
      (replied (v, e), after_request generation (judged b e duration) duration later b)
  execute_outcome panicked generation duration later b =
      (repanicked, after_request generation false 0 later b)

  -- `now` and `later` are the instants before and after the request, which took `duration`.
  pub execute :
      (Breaker V E → Breaker V E) → Outcome V E → ℕ → ℕ → ℕ → Breaker V E → Answer V E × Breaker V E
  unfolding refuse execute_outcome
  execute others outcome now duration later b =
      let (generation, refused, b') = before_request now b in
      elim refused [
        | some e ↦ (replied (refuse b.config.fallback e), b')
        | none ↦ execute_outcome outcome generation duration later (others b')
      ]

  -- The goroutine turns a panic into an error with no duration.
  pub settled : Outcome V E → ℕ → Reply V E × ℕ
  settled (returned r) duration = (r, duration)
  settled panicked duration = ((none, some recovered), 0)

  race_outcome : Race V E → ℕ → ℕ → ℕ → Breaker V E → Reply V E × Breaker V E
  unfolding settled refuse
  race_outcome (finished outcome spent) generation timeout later b =
      let (r, duration) = settled outcome spent in
      let (v, e) = r in
      let success = b.config.is_successful e && leb duration b.config.slow_call_threshold in
      ((v, e), after_request generation success duration later b)
  race_outcome timed_out generation timeout later b =
      (refuse b.config.fallback open_timeout, after_request generation false timeout later b)
  race_outcome (cancelled e) generation timeout later b =
      ((none, some (cause e)), after_request generation false 0 later b)

  pub execute_with_timeout :
      (Breaker V E → Breaker V E) → Race V E → ℕ → ℕ → ℕ → Breaker V E → Reply V E × Breaker V E
  unfolding refuse race_outcome
  execute_with_timeout others race timeout now later b =
      let (generation, refused, b') = before_request now b in
      elim refused [
        | some e ↦ (refuse b.config.fallback e, b')
        | none ↦ race_outcome race generation timeout later (others b')
      ]
