-- ===== src/AdvancedBreaker/Transitions.antt =====
-- The changes of state that reports make.
use advanced_golang_tutorial.Prelude.{
  ℕ, ◌+◌, ◌≡◌, refl, ap, ◌∙◌, Bool, true, false, not, Bool-cases, inl, inr, arith, if◌then◌else◌,
  u64, ltb, Float64,
}
use advanced_golang_tutorial.AdvancedBreaker.{
  State, closed, opened, half_open, same_state, Breaker, trips, after_request, should_trip_to_open,
  transition_to, evaluate, evaluate_state_transition, noted, call_back,
}
use advanced_golang_tutorial.AdvancedBreaker.Counters.{Metrics, update_metrics}
use advanced_golang_tutorial.AdvancedBreaker.Sliding.{
  Window, add_to_window, effective_window_size, failures, slow_calls,
}

-- The state after a report, where the figures with the report in them may trip a closed breaker.
abbrev pub next_state : State → Bool → Bool → State
next_state closed success trip = if trip then opened else closed
next_state half_open true trip = closed
next_state half_open false trip = opened
next_state opened success trip = opened

opens_kept :
    (threshold duration now : ℕ) (success : Bool) (m : Metrics)
    → (update_metrics threshold success duration now m).circuit_open_count ≡ m.circuit_open_count
unfolding update_metrics
opens_kept threshold duration now true m = refl
opens_kept threshold duration now false m = refl

module _ (f : Float64) where
  abbrev pub window_after : Bool → ℕ → ℕ → Breaker f → Window
  window_after success duration now b =
      add_to_window
        (record {
          success = success;
          duration = duration;
          timestamp = now;
          is_slow_call = ltb b.config.slow_call_threshold duration;
        })
        b.window

  abbrev pub failures_in_a_row : Bool → Breaker f → ℕ
  failures_in_a_row success b = if success then 0 else u64 (b.metrics.consecutive_failures + 1)

  abbrev pub verdict : Bool → ℕ → ℕ → Breaker f → State
  verdict success duration now b =
      let w = window_after success duration now b in
      next_state b.state success (
        trips f b.config (effective_window_size w) (failures_in_a_row success b) (failures w)
          (slow_calls w))

  -- What a report may do once the result is in the metrics and the window.
  abbrev Follows : State → ℕ → Breaker f → Breaker f → Type 0
  Follows next now b b' =
      let moves = not (same_state b.state next) in
      (b'.state ≡ next)
      × (b'.window ≡ b.window)
      × (b'.generation ≡ (if moves then u64 (b.generation + 1) else b.generation))
      × (moves ≡ true
          → next ≡ opened
          → (b'.state_expiry ≡ now + b.config.open_timeout)
            × (b'.metrics.circuit_open_count ≡ u64 (b.metrics.circuit_open_count + 1)))
      × (moves ≡ true
          → next ≡ closed
          → (b'.state_expiry ≡ 0) × (b'.metrics.consecutive_failures ≡ 0))

  transition_to-Follows :
      (next : State) (now : ℕ) (b : Breaker f) → Follows next now b (transition_to f next now b)
  unfolding transition_to
  transition_to-Follows closed now b = ground arith
  transition_to-Follows opened now b = ground arith
  transition_to-Follows half_open now b = ground arith

  stays-Follows : (t : State) (now : ℕ) (b : Breaker f) → b.state ≡ t → Follows t now b b
  stays-Follows closed now b e = ground arith
  stays-Follows opened now b e = ground arith
  stays-Follows half_open now b e = ground arith

  noted-verdict :
      (success : Bool) (duration now : ℕ) (b : Breaker f)
      → next_state b.state success (should_trip_to_open f (noted f success duration now b))
        ≡ verdict success duration now b
  unfolding noted update_metrics should_trip_to_open
  noted-verdict true duration now b = refl
  noted-verdict false duration now b = refl

  evaluate-Follows :
      (t : State) (success : Bool) (now : ℕ) (b : Breaker f)
      → b.state ≡ t
      → Follows (next_state t success (should_trip_to_open f b)) now b (evaluate f t success now b)
  unfolding evaluate
  evaluate-Follows closed success now b e = elim (Bool-cases (should_trip_to_open f b)) [
    | inl t ↦ rw t (transition_to-Follows opened now b)
    | inr n ↦ rw n (stays-Follows closed now b e)
  ]
  evaluate-Follows half_open true now b e = transition_to-Follows closed now b
  evaluate-Follows half_open false now b e = transition_to-Follows opened now b
  evaluate-Follows opened success now b e = stays-Follows opened now b e

  call_back-Follows :
      (next : State) (success : Bool) (duration now : ℕ) (n b : Breaker f)
      → Follows next now n b
      → Follows next now n (call_back f success duration b)
  unfolding call_back
  call_back-Follows next success duration now n b e = elim (Bool-cases b.config.observes_results) [
    | inl o ↦ rw (o, call_back) e
    | inr o ↦ rw (o, call_back) e
  ]

  -- After any report in any state: the state is the one of the table, read off the window with the
  -- report in it; the window keeps its other results, also when the breaker closes; the generation
  -- goes up exactly when the state changes; a breaker that opens gets its expiry and is counted; one
  -- that closes has no failures in a row.
  pub after_request-verdict :
      (success : Bool) (duration now : ℕ) (b : Breaker f)
      → let b' = after_request f success duration now b in
        let next = verdict success duration now b in
        let moves = not (same_state b.state next) in
        (b'.state ≡ next)
        × (b'.window ≡ window_after success duration now b)
        × (b'.generation ≡ (if moves then u64 (b.generation + 1) else b.generation))
        × (moves ≡ true
            → next ≡ opened
            → (b'.state_expiry ≡ now + b.config.open_timeout)
              × (b'.metrics.circuit_open_count ≡ u64 (b.metrics.circuit_open_count + 1)))
        × (moves ≡ true
            → next ≡ closed
            → (b'.state_expiry ≡ 0) × (b'.metrics.consecutive_failures ≡ 0))
  unfolding after_request evaluate_state_transition noted
  after_request-verdict success duration now b =
      let n = noted f success duration now b in
      let e = rw (noted-verdict success duration now b) at (
        call_back-Follows (next_state n.state success (should_trip_to_open f n)) success duration
          now n (evaluate f n.state success now n) (evaluate-Follows n.state success now n refl)) in
      let opens = opens_kept b.config.slow_call_threshold duration now success b.metrics in
      (
        e.0,
        e.1,
        e.2,
        λ m o. let (expiry, count) = e.3 m o in (expiry, count ∙ ap (λ k. u64 (k + 1)) opens),
        e.4,
      )
