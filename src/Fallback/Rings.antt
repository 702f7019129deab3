-- ===== src/Fallback/Rings.antt =====
-- The window is a ring of the configured size in every run.
use advanced_golang_tutorial.Prelude.{
  ℕ, ◌<◌, ◌≡◌, ◌∙◌, List, [], ◌∷◌, arith, length, length-replicate, get_elem?, Float64,
  Option-cases, inl, inr, length-set,
}
use advanced_golang_tutorial.Fallback.Sliding.{
  RequestResult, Window, zero_result, empty_window, add_to_window,
}
use advanced_golang_tutorial.Fallback.Manager.{FallbackManager}
use advanced_golang_tutorial.Fallback.Execution.{
  enter_execute, leave_execute, open_execute, finish_execute, execute_in,
}
use advanced_golang_tutorial.Fallback.{evaluate_mode, reset, clear_cache, start, stop}
use advanced_golang_tutorial.Fallback.Runs.{
  Running, Event, arrives, enters, backs_out, opens, finishes, leaves, evaluates, resets, clears,
  starts, stops, step, run,
}
use advanced_golang_tutorial.Fallback.Windows.{finish_execute-window, evaluate_mode-SameCalls}

add_to_window-length :
    (r : RequestResult) (w : Window) (size : ℕ)
    → (length w.results ≡ size) × (w.index < size)
    → (length (add_to_window r w).results ≡ size) × ((add_to_window r w).index < size)
unfolding add_to_window
add_to_window-length r w size (l, i) = (length-set w.results w.index r ∙ l, omega arith)

module _ {F : Float64} {D : Type 0} where
  -- The window has as many places as the configuration says, and the index is one of them.
  abbrev pub IsRing : FallbackManager F D → Type 0
  IsRing m =
      (length m.window.results ≡ m.config.sliding_window_size)
      × (m.window.index < m.config.sliding_window_size)

  IsRing-same :
      (m m' : FallbackManager F D)
      → (m'.config ≡ m.config) × (m'.window ≡ m.window)
      → IsRing m
      → IsRing m'
  IsRing-same m m' (config, window) h = rw (config, window) h

  IsRing-of :
      (m m' : FallbackManager F D) (w : Window)
      → m'.config ≡ m.config
      → m'.window ≡ w
      → (length w.results ≡ m.config.sliding_window_size) × (w.index < m.config.sliding_window_size)
      → IsRing m'
  IsRing-of m m' w config window h = rw (config, window) h

  pub step-IsRing : (e : Event D) (s : Running F D) → IsRing s.manager → IsRing (step e s).manager
  unfolding step enter_execute leave_execute open_execute reset clear_cache start stop empty_window
  step-IsRing arrives s h =
      IsRing-same s.manager (step arrives s).manager (ground arith, ground arith) h
  step-IsRing enters s h =
      IsRing-same s.manager (step enters s).manager (ground arith, ground arith) h
  step-IsRing backs_out s h =
      IsRing-same s.manager (step backs_out s).manager (ground arith, ground arith) h
  step-IsRing opens s h =
      IsRing-same s.manager (step opens s).manager (ground arith, ground arith) h
  step-IsRing leaves s h =
      IsRing-same s.manager (step leaves s).manager (ground arith, ground arith) h
  step-IsRing (finishes i key now duration a) s h = elim (Option-cases (get_elem? s.in_flight i)) [
    | inl nothing ↦
        let goes : step (finishes i key now duration a) s ≡ s = ground arith in rw goes h
    | inr (mode, running) ↦
        let goes : (step (finishes i key now duration a) s).manager
            ≡ (finish_execute mode key now duration a s.manager).1 =
          ground arith in
        let (config, window) = finish_execute-window mode key now duration a s.manager in
        let added =
          add_to_window-length
            (record {
              success = (execute_in mode key now a s.manager).1.0;
              mode = mode;
              timestamp = now;
              duration = duration;
            })
            s.manager.window s.manager.config.sliding_window_size h in
        rw goes (
          IsRing-of s.manager (finish_execute mode key now duration a s.manager).1
            (add_to_window
              (record {
                success = (execute_in mode key now a s.manager).1.0;
                mode = mode;
                timestamp = now;
                duration = duration;
              })
              s.manager.window)
            config window added)
  ]
  step-IsRing (evaluates now) s h =
      let (config, (window, workers)) = evaluate_mode-SameCalls now s.manager in
      IsRing-same s.manager (evaluate_mode now s.manager) (config, window) h
  step-IsRing (resets now) s h =
      (length-replicate s.manager.config.sliding_window_size zero_result, omega arith)
  step-IsRing clears s h = h
  step-IsRing starts s h = IsRing-same s.manager (start s.manager).1 (ground arith, ground arith) h
  step-IsRing stops s h = IsRing-same s.manager (stop s.manager).1 (ground arith, ground arith) h

  pub run-IsRing :
      (es : List (Event D)) (s : Running F D) → IsRing s.manager → IsRing (run es s).manager
  unfolding run
  run-IsRing [] s h = h
  run-IsRing (e ∷ es) s h = run-IsRing es (step e s) (step-IsRing e s h)
