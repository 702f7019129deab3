-- ===== src/Fallback/Windows.antt =====
-- What calls and evaluations do to the window.
use advanced_golang_tutorial.Prelude.{
  ℕ, ◌-◌, ◌≡◌, refl, Bool, true, false, arith, if◌then◌else◌, ltb, leb, Text, Float64, Bool-cases,
  inl, inr,
}
use advanced_golang_tutorial.Fallback.Sliding.{
  FallbackMode, normal_mode, fallback, transition_mode, add_to_window, get_effective_window_size,
}
use advanced_golang_tutorial.Fallback.Manager.{
  FallbackManager, Answers, same_mode, calculate_current_error_rate,
}
use advanced_golang_tutorial.Fallback.Execution.{execute_in, record_result, finish_execute}
use advanced_golang_tutorial.Fallback.{transition_to, is_recovered, evaluate_in, evaluate_mode}
use advanced_golang_tutorial.Fallback.Frames.{execute_in-SameControl}

module _ {F : Float64} {D : Type 0} where
  -- Any call adds its result to the window.
  pub finish_execute-window :
      (mode : FallbackMode) (key : Text) (now duration : ℕ) (a : Answers D)
      (m : FallbackManager F D)
      → ((finish_execute mode key now duration a m).1.config ≡ m.config)
        × ((finish_execute mode key now duration a m).1.window
            ≡ add_to_window
                (record {
                  success = (execute_in mode key now a m).1.0;
                  mode = mode;
                  timestamp = now;
                  duration = duration;
                })
                m.window)
  unfolding finish_execute record_result
  finish_execute-window mode key now duration a m =
      let same = execute_in-SameControl mode key now a m in
      let config = same.0.1.1 in let window = same.1.0 in (config, ground arith)

  -- The same configuration, window and number of calls at work.
  abbrev pub SameCalls : FallbackManager F D → FallbackManager F D → Type 0
  SameCalls m m' =
      (m'.config ≡ m.config) × ((m'.window ≡ m.window) × (m'.active_workers ≡ m.active_workers))

  transition_to-SameCalls :
      (mode : FallbackMode) (now : ℕ) (m : FallbackManager F D)
      → SameCalls m (transition_to mode now m)
  unfolding transition_to
  transition_to-SameCalls mode now m = elim (Bool-cases (same_mode m.current_mode mode)) [
    | inl same ↦
        let goes : transition_to mode now m ≡ m = ground arith in rw goes (refl, (refl, refl))
    | inr other ↦ (ground arith, (ground arith, ground arith))
  ]

  -- A manager that stays or changes its mode.
  if-SameCalls :
      (b : Bool) (x y m : FallbackManager F D)
      → SameCalls m x
      → SameCalls m y
      → SameCalls m (if b then x else y)
  if-SameCalls true x y m hx hy = hx
  if-SameCalls false x y m hx hy = hy

  evaluate_in-SameCalls :
      (mode : FallbackMode) (now : ℕ) (m : FallbackManager F D)
      → SameCalls m (evaluate_in mode now m)
  unfolding evaluate_in
  evaluate_in-SameCalls normal_mode now m =
      if-SameCalls (F.le m.config.error_rate_threshold (calculate_current_error_rate F m.window))
        (transition_to fallback now m) m m (transition_to-SameCalls fallback now m)
        (refl, (refl, refl))
  evaluate_in-SameCalls fallback now m =
      if-SameCalls (is_recovered m) (transition_to transition_mode now m) m m
        (transition_to-SameCalls transition_mode now m) (refl, (refl, refl))
  evaluate_in-SameCalls transition_mode now m =
      let left =
        if is_recovered m then transition_to normal_mode now m else transition_to fallback now m in
      if-SameCalls (leb m.config.transition_duration (now - m.last_mode_change)) left m m
        (if-SameCalls (is_recovered m) (transition_to normal_mode now m)
          (transition_to fallback now m) m (transition_to-SameCalls normal_mode now m)
          (transition_to-SameCalls fallback now m))
        (refl, (refl, refl))

  pub evaluate_mode-SameCalls :
      (now : ℕ) (m : FallbackManager F D) → SameCalls m (evaluate_mode now m)
  unfolding evaluate_mode
  evaluate_mode-SameCalls now m =
      let few = ltb (get_effective_window_size m.window) m.config.minimum_request_count in
      elim (Bool-cases few) [
        | inl waits ↦
            let goes : evaluate_mode now m ≡ m = ground arith in rw goes (refl, (refl, refl))
        | inr enough ↦
            let goes : evaluate_mode now m ≡ evaluate_in m.current_mode now m = ground arith in
            rw goes (evaluate_in-SameCalls m.current_mode now m)
      ]

  pub finish_execute-workers :
      (mode : FallbackMode) (key : Text) (now duration : ℕ) (a : Answers D)
      (m : FallbackManager F D)
      → (finish_execute mode key now duration a m).1.active_workers ≡ m.active_workers
  unfolding finish_execute record_result
  finish_execute-workers mode key now duration a m =
      let same = (execute_in-SameControl mode key now a m).1.1 in same
