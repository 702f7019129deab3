-- ===== src/GrpcClient/Calls.antt =====
-- What executeWithRetry returns, reports to the breaker and leaves.
use advanced_golang_tutorial.Prelude.{
  ℕ, zero, suc, ◌<◌, ◌≡◌, refl, ◌∙◌, sym, ap, Bool, true, false, Option, none, some, arith, pos,
  negsuc, Bool-cases, add_i64, inl, inr,
}
use advanced_golang_tutorial.GrpcClient.Breaker.{
  CircuitBreaker, can_execute, on_success, on_failure,
}
use advanced_golang_tutorial.GrpcClient.Retry.{
  RetryPolicy, Loop, interrupted, attempts, max_attempts,
}
use advanced_golang_tutorial.GrpcClient.Retry.Story.{
  after_runs, last_error, Retried, Finish, worked, hopeless, stopped, exhausted, attempts_lem,
}
use advanced_golang_tutorial.GrpcClient.{
  circuit_open, failed, Client, Called, settle, execute_with_retry,
}

module _ {S E : Type 0} (is_retryable : E → Bool) (operation : S → Option E × S) where
  -- A call that the breaker `b` admitted, after `k` runs that were tried again, out of `n`.
  pub data Outcome (pause : ℕ → Option E) (n later : ℕ) (b : CircuitBreaker) (s : S) (k : ℕ)
      (r : Called S E) : Type 0 where
    worked_out :
        k < n
        → (operation (after_runs is_retryable operation k s)).0 ≡ none
        → r.error ≡ none
        → r.client.breaker ≡ on_success b
        → r.ran ≡ suc k
        → Outcome pause n later b s k r
    broke :
        (e : E)
        → k < n
        → (operation (after_runs is_retryable operation k s)).0 ≡ some e
        → is_retryable e ≡ false
        → r.error ≡ some (failed e)
        → r.client.breaker ≡ on_failure later b
        → r.ran ≡ suc k
        → Outcome pause n later b s k r
    cut_off :
        (e : E)
        → k < n
        → 0 < k
        → pause k ≡ some e
        → r.error ≡ some (failed e)
        → r.client.breaker ≡ b
        → r.ran ≡ k
        → Outcome pause n later b s k r
    ran_out :
        k ≡ n
        → r.error ≡ elim (last_error is_retryable operation none k s) [
          | none ↦ none
          | some e ↦ some (failed e)
        ]
        → r.client.breaker ≡ on_failure later b
        → r.ran ≡ n
        → Outcome pause n later b s k r

  cut_later :
      (pause : ℕ → Option E) (k : ℕ) (e : E)
      → interrupted pause k ≡ some e
      → (0 < k) × (pause k ≡ some e)
  unfolding interrupted
  cut_later pause zero e h = cc
  cut_later pause (suc k) e h = (omega arith, ground (arith, h))

  settle-Outcome :
      (pause : ℕ → Option E) (n later : ℕ) (c : Client) (s : S) (k : ℕ) (l : Loop S E)
      → Finish is_retryable operation pause n 0 none s k l
      → let r = settle later c l l.ended in
        Outcome pause n later c.breaker s k r
        × (r.state ≡ after_runs is_retryable operation r.ran s)
  unfolding settle
  settle-Outcome pause n later c s k l (worked h ended result ran state) =
      rw (ended, settle)
        (
          worked_out h result refl refl ran,
          state ∙ ap (λ i. after_runs is_retryable operation i s) (sym ran),
        )
  settle-Outcome pause n later c s k l (hopeless e h ended result never ran state) =
      rw (ended, settle)
        (
          broke e h result never refl refl ran,
          state ∙ ap (λ i. after_runs is_retryable operation i s) (sym ran),
        )
  settle-Outcome pause n later c s k l (stopped e h ended cut ran state) =
      let (positive, paused) = cut_later pause k e (ap (interrupted pause) (omega arith) ∙ cut) in
      rw (ended, settle)
        (
          cut_off e h positive paused refl refl ran,
          state ∙ ap (λ i. after_runs is_retryable operation i s) (sym ran),
        )
  settle-Outcome pause n later c s k l (exhausted h ended ran state) =
      rw (ended, settle)
        (
          ran_out h refl refl ran,
          state ∙ ap (λ i. after_runs is_retryable operation i s) (h ∙ sym ran),
        )

  -- A call that the breaker admits ends in one of four ways, after runs of the operation whose errors
  -- all allow another try. The operation then works, which the breaker hears as a success; or it has
  -- an error that allows no other try, or the attempts run out, and the breaker hears of a failure;
  -- or the context ends the wait before another attempt, and the breaker hears nothing. There are
  -- MaxRetries + 1 attempts, or none where that is not positive or wraps around. The state is that of
  -- the runs.
  pub execute_with_retry-admitted :
      (policy : RetryPolicy) (pause : ℕ → Option E) (now later : ℕ) (c : Client) (s : S)
      → (can_execute now c.breaker).0 ≡ true
      → let r = execute_with_retry is_retryable policy pause operation now later c s in
        (k : ℕ) × Retried is_retryable operation k s
        × Outcome pause (max_attempts policy) later (can_execute now c.breaker).1 s k r
        × (r.state ≡ after_runs is_retryable operation r.ran s)
  unfolding execute_with_retry
  execute_with_retry-admitted policy pause now later c s e =
      let (k, before, finish) =
        attempts_lem is_retryable operation policy pause (max_attempts policy) 0
          policy.initial_backoff none s in
      let b = (can_execute now c.breaker).1 in
      let (outcome, state) =
        settle-Outcome pause (max_attempts policy) later (record c { breaker = b }) s k _ finish in
      rw (e, execute_with_retry) (k, before, outcome, state)

  pub execute_with_retry-refused :
      (policy : RetryPolicy) (pause : ℕ → Option E) (now later : ℕ) (c : Client) (s : S)
      → (can_execute now c.breaker).0 ≡ false
      → let r = execute_with_retry is_retryable policy pause operation now later c s in
        (r.error ≡ some circuit_open)
        × (r.state ≡ s)
        × (r.ran ≡ 0)
        × (r.client.breaker_trips ≡ add_i64 c.breaker_trips 1)
  unfolding execute_with_retry
  execute_with_retry-refused policy pause now later c s e =
      rw (e, execute_with_retry) (refl, refl, refl, refl)

  last_error-some :
      (last : Option E) (k : ℕ) (s : S)
      → Retried is_retryable operation (suc k) s
      → (e : E) × (last_error is_retryable operation last (suc k) s ≡ some e)
  last_error-some last zero s ((e, bad, again), rest) = (e, bad)
  last_error-some last (suc k) s (first, rest) =
      last_error-some (operation s).0 k (operation s).1 rest

  no_error-Outcome :
      (pause : ℕ → Option E) (m later : ℕ) (b : CircuitBreaker) (s : S) (k : ℕ) (r : Called S E)
      → Retried is_retryable operation k s
      → Outcome pause (suc m) later b s k r
      → r.error ≡ none
      → ((operation (after_runs is_retryable operation k s)).0 ≡ none)
        × (r.client.breaker ≡ on_success b)
        × (r.ran ≡ suc k)
  no_error-Outcome pause m later b s k r before (worked_out h result error breaker ran) none_left =
      (result, breaker, ran)
  no_error-Outcome pause m later b s k r before (broke e h result never error breaker ran)
        none_left =
      cc
  no_error-Outcome pause m later b s k r before (cut_off e h positive paused error breaker ran)
        none_left =
      cc
  no_error-Outcome pause m later b s k r before (ran_out h error breaker ran) none_left =
      let (e, last) = last_error-some none m s (rw h at before) in
      absurd (let impossible = rw (h, last) at error in cc)

  -- If MaxRetries is not negative and below the greatest int, a call returns no error only where the
  -- operation ran and its last run had none, every run before it having an error that allows another
  -- try; and the breaker then closes.
  pub no_error :
      (policy : RetryPolicy) (pause : ℕ → Option E) (now later m : ℕ) (c : Client) (s : S)
      → policy.max_retries ≡ pos m
      → m < 9223372036854775807
      → let r = execute_with_retry is_retryable policy pause operation now later c s in
        r.error ≡ none
        → (k : ℕ) × Retried is_retryable operation k s
          × ((operation (after_runs is_retryable operation k s)).0 ≡ none)
          × (r.client.breaker ≡ on_success (can_execute now c.breaker).1)
          × (r.ran ≡ suc k)
  unfolding max_attempts
  no_error policy pause now later m c s e small none_left =
      elim (Bool-cases (can_execute now c.breaker).0) [
        | inl admitted ↦
            let (k, before, outcome, state) =
              execute_with_retry-admitted policy pause now later c s admitted in
            let attempts_left : max_attempts policy ≡ suc m = rw (e, max_attempts) (ground arith) in
            let (result, breaker, ran) =
              no_error-Outcome pause m later _ s k _ before (rw attempts_left at outcome)
                none_left in
            (k, before, result, breaker, ran)
        | inr refused ↦
            let error = (execute_with_retry-refused policy pause now later c s refused).0 in
            absurd cc
      ]

  -- If MaxRetries is negative, an admitted call returns no error without running the operation, and
  -- the breaker hears of a failure.
  pub negative_retries :
      (policy : RetryPolicy) (pause : ℕ → Option E) (now later m : ℕ) (c : Client) (s : S)
      → policy.max_retries ≡ negsuc m
      → (can_execute now c.breaker).0 ≡ true
      → let r = execute_with_retry is_retryable policy pause operation now later c s in
        (r.error ≡ none)
        × (r.ran ≡ 0)
        × (r.state ≡ s)
        × (r.client.breaker ≡ on_failure later (can_execute now c.breaker).1)
  unfolding execute_with_retry max_attempts attempts settle
  negative_retries policy pause now later m c s e admitted =
      rw (admitted, execute_with_retry) (rw (e, max_attempts) (refl, refl, refl, refl))
