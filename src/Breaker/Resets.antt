-- ===== src/Breaker/Resets.antt =====
-- Reset, which starts the new generation before it stores the closed state: the expiry is the one
-- of the state that it leaves.
use advanced_golang_tutorial.Prelude.{ℕ, ◌+◌, ◌<◌, ◌≡◌, refl, arith, u64}
use advanced_golang_tutorial.Breaker.{
  closed, half_open, opened, zero_counts, Breaker, current_state, reset,
}

module _ {V E : Type 0} where
  -- After Reset the breaker is closed in a new generation with no counts. From a closed breaker the
  -- generation ends after the interval, from an open one after the timeout; from a half-open one
  -- it never ends: no later instant starts a new generation.
  pub reset_lifetime :
      (now later : ℕ) (b : Breaker V E)
      → 0 < b.config.interval
      → 0 < now
      → let r = reset now b in
        (r.state ≡ closed)
        × (r.counts ≡ zero_counts)
        × (r.generation ≡ u64 (b.generation + 1))
        × (b.state ≡ closed
            → now + b.config.interval < later
            → (current_state later r).generation ≡ u64 (r.generation + 1))
        × (b.state ≡ opened
            → now + b.config.timeout < later
            → (current_state later r).generation ≡ u64 (r.generation + 1))
        × (b.state ≡ half_open → current_state later r ≡ r)
  unfolding reset current_state
  reset_lifetime now later b i n =
      (refl, refl, refl, λ e l. ground arith, λ e l. ground arith, λ e. ground arith)
