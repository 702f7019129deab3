-- ===== src/Breaker/Verdict.antt =====
-- What a report does to the breaker, and how long an open breaker refuses.
use advanced_golang_tutorial.Prelude.{
  ℕ, ◌+◌, ◌≤◌, ◌<◌, ◌≡◌, ap, Bool, true, false, none, some, arith, ◌∷◌, if◌then◌else◌, ◌==◌, u64,
  add_i64,
}
use advanced_golang_tutorial.Breaker.{
  State, closed, half_open, opened, Counts, zero_counts, circuit_breaker_open, Breaker, same_state,
  succeeded_counts, failed_counts, expiry_for, current_state, before_request, on_success,
  on_failure, after_request, add_duration,
}

-- The state that a report leads to, where the counts with the report in them may trip the breaker.
abbrev pub next_state : State → Bool → Bool → State
next_state closed true trips = closed
next_state closed false trips = if trips then opened else closed
next_state half_open true trips = closed
next_state half_open false trips = opened
next_state opened success trips = opened

abbrev pub counted : Bool → Counts → Counts
counted success c = if success then succeeded_counts c else failed_counts c

abbrev pub with_duration : ℕ → Counts → Counts
with_duration d c = record c { total_duration = add_i64 c.total_duration d }

module _ {V E : Type 0} where
  -- The breaker after a report in its own generation, by the state that the report leads to.
  abbrev pub concluded : State → Bool → ℕ → ℕ → Breaker V E → Breaker V E
  concluded next success duration now b =
      if same_state b.state next
      then record b { counts = with_duration duration (counted success b.counts) }
      else record b {
        state = next;
        generation = u64 (b.generation + 1);
        counts = with_duration duration zero_counts;
        expiry = expiry_for next b.config now;
        changes = if b.config.observed then (b.state, next) ∷ b.changes else b.changes;
      }

  report_concluded :
      (success : Bool) (duration now : ℕ) (b : Breaker V E)
      → add_duration duration
          (if success then on_success b.state now b else on_failure b.state now b)
        ≡ concluded
            (next_state b.state success (b.config.ready_to_trip (counted success b.counts)))
            success
            duration
            now
            b
  unfolding add_duration on_success on_failure
  report_concluded success duration now b = ground arith

  -- For every breaker, generation, result and instant: a report whose generation is not the one
  -- that the clock leaves current changes nothing else; one of the current generation leads to the
  -- state of `next_state`, where a change of state starts a new generation with the report's
  -- duration as its only count, a new expiry and one call of OnStateChange, and a report that
  -- changes no state is counted.
  pub after_request-concluded :
      (g : ℕ) (success : Bool) (duration now : ℕ) (b : Breaker V E)
      → let rolled = current_state now b in
        let trips = rolled.config.ready_to_trip (counted success rolled.counts) in
        after_request g success duration now b ≡ (
          if rolled.generation == g
          then concluded (next_state rolled.state success trips) success duration now rolled
          else rolled)
  unfolding after_request
  after_request-concluded g success duration now b =
      ap (λ r. if (current_state now b).generation == g then r else current_state now b)
        (report_concluded success duration now (current_state now b))

  -- While an open breaker has not passed its expiry, a request is refused and nothing changes.
  -- After it, the next request is admitted as the first one of a new half-open generation, if the
  -- breaker admits any.
  pub open_window :
      (now : ℕ) (b : Breaker V E)
      → b.state ≡ opened
      → 0 < b.config.max_requests
      → (now ≤ b.expiry → before_request now b ≡ (b.generation, some circuit_breaker_open, b))
        × (b.expiry < now
            → let (g, refused, b') = before_request now b in
              (refused ≡ none)
              × (g ≡ u64 (b.generation + 1))
              × (b'.generation ≡ g)
              × (b'.state ≡ half_open)
              × (b'.counts ≡ record zero_counts { requests = 1 })
              × (b'.expiry ≡ 0))
  unfolding before_request
  open_window now b e m = (λ early. ground arith, λ late. ground arith)
