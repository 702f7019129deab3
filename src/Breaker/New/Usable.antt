-- ===== src/Breaker/New/Usable.antt =====
-- What NewCircuitBreaker establishes.
use advanced_golang_tutorial.Prelude.{ℕ, ◌+◌, ◌<◌, ◌≡◌, refl, [], arith, two_32, ℤ, Float64}
use advanced_golang_tutorial.Breaker.{closed, Breaker, to_new_generation}
use advanced_golang_tutorial.Breaker.New.{Settings, positive_or, new_circuit_breaker}
use advanced_golang_tutorial.Breaker.System.{Accounts}

-- Every duration and every limit of the configuration is positive.
pub record IsUsable {V E : Type 0} (b : Breaker V E) : Type 0 where
  pub probes : 0 < b.config.max_requests
  pub probes_bounded : b.config.max_requests < two_32
  pub rolls : 0 < b.config.interval
  pub reopens : 0 < b.config.timeout
  pub slows : 0 < b.config.slow_call_threshold

positive_or-pos : (d : ℤ) (e : ℕ) → 0 < e → 0 < positive_or d e
unfolding positive_or
positive_or-pos d e h = ground arith

module _ (f : Float64) {V E : Type 0} where
  -- Whatever the settings (a limit in the range of uint32), the new breaker is closed, in its first
  -- generation, which ends after the interval, with its accounts in order, and every limit and
  -- duration is positive, so an open breaker admits requests again after its timeout.
  pub new_circuit_breaker-IsUsable :
      (st : Settings f V E) (now : ℕ)
      → st.max_requests < two_32
      → let b = new_circuit_breaker f st now in
        IsUsable b
        × ((b.expiry ≡ now + b.config.interval)
            × (b.state ≡ closed)
            × (b.generation ≡ 1)
            × (b.changes ≡ [])
            × Accounts b [])
  unfolding new_circuit_breaker to_new_generation
  new_circuit_breaker-IsUsable st now h = (
    record {
      probes = ground arith;
      probes_bounded = ground arith;
      rolls = positive_or-pos st.interval _ (omega arith);
      reopens = positive_or-pos st.timeout _ (omega arith);
      slows = positive_or-pos st.slow_call_threshold _ (omega arith);
    },
    (
      ground (arith, positive_or-pos st.interval 60000000000 (omega arith)),
      refl,
      refl,
      refl,
      record { known = tt; conserved = refl; probing = λ e. cc },
    ),
  )
