-- ===== src/GrpcClient/Retry/Story.antt =====
-- What the loop of executeWithRetry does, run by run.
use advanced_golang_tutorial.Prelude.{
  ℕ, zero, suc, ◌+◌, ◌<◌, ◌≡◌, refl, ◌∙◌, ap, Bool, true, false, Option, none, some, arith, ℤ,
  Bool-cases, Option-cases, inl, inr, [], ◌∷◌, if◌then◌else◌, ◌==◌,
}
use advanced_golang_tutorial.GrpcClient.Retry.{
  RetryPolicy, succeeded, canceled, gave_up, Loop, one_more, interrupted, attempts, next_backoff,
}

module _ {S E : Type 0} (is_retryable : E → Bool) (operation : S → Option E × S) where
  -- The state after some runs of the operation.
  abbrev pub after_runs : ℕ → S → S
  after_runs zero s = s
  after_runs (suc k) s = after_runs k (operation s).1

  -- The error of the last run, or an earlier one without any run.
  abbrev pub last_error : Option E → ℕ → S → Option E
  last_error last zero s = last
  last_error last (suc k) s = last_error (operation s).0 k (operation s).1

  -- So many runs, each with an error that allows another try.
  abbrev pub Retried : ℕ → S → Type 0
  Retried zero s = Unit {0}
  Retried (suc k) s =
      ((e : E) × ((operation s).0 ≡ some e) × (is_retryable e ≡ true)) × Retried k (operation s).1

  -- How a loop of at most `n` attempts ends after `k` runs that are tried again.
  pub data Finish (pause : ℕ → Option E) (n attempt : ℕ) (last : Option E) (s : S) (k : ℕ)
      (l : Loop S E) : Type 0 where
    worked :
        k < n
        → l.ended ≡ succeeded
        → (operation (after_runs k s)).0 ≡ none
        → l.ran ≡ suc k
        → l.state ≡ after_runs (suc k) s
        → Finish pause n attempt last s k l
    hopeless :
        (e : E)
        → k < n
        → l.ended ≡ gave_up (some e)
        → (operation (after_runs k s)).0 ≡ some e
        → is_retryable e ≡ false
        → l.ran ≡ suc k
        → l.state ≡ after_runs (suc k) s
        → Finish pause n attempt last s k l
    stopped :
        (e : E)
        → k < n
        → l.ended ≡ canceled e
        → interrupted pause (attempt + k) ≡ some e
        → l.ran ≡ k
        → l.state ≡ after_runs k s
        → Finish pause n attempt last s k l
    exhausted :
        k ≡ n
        → l.ended ≡ gave_up (last_error last k s)
        → l.ran ≡ n
        → l.state ≡ after_runs k s
        → Finish pause n attempt last s k l

  Finish-one_more :
      (pause : ℕ → Option E) (n attempt : ℕ) (backoff : ℤ) (last : Option E) (s : S) (k : ℕ)
      (l : Loop S E)
      → Finish pause n (suc attempt) (operation s).0 (operation s).1 k l
      → Finish pause (suc n) attempt last s (suc k) (one_more attempt backoff l)
  unfolding one_more
  Finish-one_more pause n attempt backoff last s k l (worked h ended result ran state) =
      worked (omega arith) ended result (ap suc ran) state
  Finish-one_more pause n attempt backoff last s k l (hopeless e h ended result final ran state) =
      hopeless e (omega arith) ended result final (ap suc ran) state
  Finish-one_more pause n attempt backoff last s k l (stopped e h ended cut ran state) =
      let place : attempt + suc k ≡ suc attempt + k = omega arith in
      stopped e (omega arith) ended (rw place cut) (ap suc ran) state
  Finish-one_more pause n attempt backoff last s k l (exhausted h ended ran state) =
      exhausted (ap suc h) ended (ap suc ran) state

  pub attempts-again :
      (policy : RetryPolicy) (pause : ℕ → Option E) (n attempt : ℕ) (backoff : ℤ) (last : Option E)
      (s : S) (e : E)
      → interrupted pause attempt ≡ none
      → (operation s).0 ≡ some e
      → is_retryable e ≡ true
      → attempts is_retryable policy pause operation (suc n) attempt backoff last s
        ≡ one_more attempt backoff (
            attempts is_retryable policy pause operation n
              (suc attempt)
              (next_backoff policy attempt backoff)
              (operation s).0
              (operation s).1)
  unfolding attempts
  attempts-again policy pause n attempt backoff last s e goes_on bad again =
      rw (goes_on, attempts) (rw bad (rw again refl))

  pub attempts-hopeless :
      (policy : RetryPolicy) (pause : ℕ → Option E) (n attempt : ℕ) (backoff : ℤ) (last : Option E)
      (s : S) (e : E)
      → interrupted pause attempt ≡ none
      → (operation s).0 ≡ some e
      → is_retryable e ≡ false
      → attempts is_retryable policy pause operation (suc n) attempt backoff last s
        ≡ one_more attempt backoff
            (record { ended = gave_up (some e); ran = 0; waits = []; state = (operation s).1 })
  unfolding attempts
  attempts-hopeless policy pause n attempt backoff last s e goes_on bad never =
      rw (goes_on, attempts) (rw bad (rw never refl))

  pub attempts-cut :
      (policy : RetryPolicy) (pause : ℕ → Option E) (n attempt : ℕ) (backoff : ℤ) (last : Option E)
      (s : S) (e : E)
      → interrupted pause attempt ≡ some e
      → attempts is_retryable policy pause operation (suc n) attempt backoff last s ≡ record {
        ended = canceled e;
        ran = 0;
        waits = if attempt == 0 then [] else backoff ∷ [];
        state = s;
      }
  unfolding attempts
  attempts-cut policy pause n attempt backoff last s e cut = rw (cut, attempts) refl

  pub attempts-worked :
      (policy : RetryPolicy) (pause : ℕ → Option E) (n attempt : ℕ) (backoff : ℤ) (last : Option E)
      (s : S)
      → interrupted pause attempt ≡ none
      → (operation s).0 ≡ none
      → attempts is_retryable policy pause operation (suc n) attempt backoff last s
        ≡ one_more attempt backoff
            (record { ended = succeeded; ran = 0; waits = []; state = (operation s).1 })
  unfolding attempts
  attempts-worked policy pause n attempt backoff last s goes_on fine =
      rw (goes_on, attempts) (rw fine refl)

  -- A loop of at most `n` attempts ends: by the first run that has no error, or whose error allows no
  -- other try, or by the context before a run, or after `n` runs. All runs before had errors that
  -- allow another try; the state is that of the runs, and the error that is left is the last run's.
  pub attempts_lem :
      (policy : RetryPolicy) (pause : ℕ → Option E) (n attempt : ℕ) (backoff : ℤ) (last : Option E)
      (s : S)
      → (k : ℕ) × Retried k s
        × Finish pause n attempt last s k
            (attempts is_retryable policy pause operation n attempt backoff last s)
  unfolding attempts one_more
  attempts_lem policy pause zero attempt backoff last s = (0, tt, exhausted refl refl refl refl)
  attempts_lem policy pause (suc n) attempt backoff last s =
      elim (Option-cases (interrupted pause attempt)) [
        | inr (e, cut) ↦ (
          0,
          tt,
          rw (attempts-cut policy pause n attempt backoff last s e cut)
              (stopped e (omega arith) refl (ap (interrupted pause) (omega arith) ∙ cut) refl refl),
        )
        | inl goes_on ↦ elim (Option-cases (operation s).0) [
          | inl fine ↦ (
            0,
            tt,
            rw (attempts-worked policy pause n attempt backoff last s goes_on fine)
                (worked (omega arith) refl fine refl refl),
          )
          | inr (e, bad) ↦ elim (Bool-cases (is_retryable e)) [
            | inl again ↦
                let (k, before, finish) =
                  attempts_lem policy pause n (suc attempt) (next_backoff policy attempt backoff)
                    (some e) (operation s).1 in
                (
                  suc k,
                  ((e, bad, again), before),
                  rw (attempts-again policy pause n attempt backoff last s e goes_on bad again)
                      (Finish-one_more pause n attempt backoff last s k _ (rw bad finish)),
                )
            | inr never ↦ (
              0,
              tt,
              rw (attempts-hopeless policy pause n attempt backoff last s e goes_on bad never)
                  (hopeless e (omega arith) refl bad never refl refl),
            )
          ]
        ]
      ]
