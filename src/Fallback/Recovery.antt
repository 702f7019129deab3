-- ===== src/Fallback/Recovery.antt =====
-- The way back from the fallback mode.
use advanced_golang_tutorial.Prelude.{
  ℕ, ◌+◌, ◌≤◌, ◌≡◌, refl, sym, ap, subst, ◌∙◌, true, false, List, arith, ◌==◌, length-replicate,
  Float64,
}
use advanced_golang_tutorial.Fallback.Sliding.{
  normal_mode, fallback, transition_mode, zero_result, empty_window, get_effective_window_size,
  failures,
}
use advanced_golang_tutorial.Fallback.Manager.{
  FallbackManagerConfig, FallbackManager, calculate_current_error_rate, same_mode,
}
use advanced_golang_tutorial.Fallback.{
  new_fallback_manager, or_default, evaluate_in, evaluate_mode, is_recovered, transition_to,
}
use advanced_golang_tutorial.Fallback.Runs.{Running, Event, evaluates, init, step, run}
use advanced_golang_tutorial.Fallback.Clearing.{
  Clearing, begins_Clearing, IsClear, Clearing-IsClear,
}
use advanced_golang_tutorial.Fallback.Frames.{SameMode}
use advanced_golang_tutorial.Fallback.Windows.{evaluate_mode-SameCalls}
use advanced_golang_tutorial.Fallback.Rings.{IsRing, step-IsRing, run-IsRing}
use advanced_golang_tutorial.Fallback.Serving.{AreServed, ended_calls, run-Clearing}

-- What the return relies on: a window of the configured size is enough data, and a rate of no
-- failures in it is not above the recovery threshold.
pub record CanRecover {F : Float64} (cfg : FallbackManagerConfig F) : Type 0 where
  pub enough : cfg.minimum_request_count ≤ cfg.sliding_window_size
  pub low :
      F.le (F.divide (F.of_ℕ 0) (F.of_ℕ cfg.sliding_window_size)) cfg.recovery_threshold ≡ true

init-IsRing :
    {F : Float64} (D : Type 0) (threshold recovery : F.Carrier) (cfg : FallbackManagerConfig F)
    (made : ℕ)
    → IsRing (init {D = D} threshold recovery cfg made).manager
unfolding init new_fallback_manager empty_window
init-IsRing D threshold recovery cfg made =
    (length-replicate (or_default cfg.sliding_window_size 100) zero_result, ground arith)

module _ {F : Float64} {D : Type 0} where
  clear-is_recovered :
      (m : FallbackManager F D)
      → CanRecover m.config
      → IsRing m
      → IsClear m.config.sliding_window_size m.window
      → is_recovered m ≡ true
  unfolding is_recovered calculate_current_error_rate
  clear-is_recovered m can ring (size, none_failed) =
      let some_size : (get_effective_window_size m.window == 0) ≡ false = ground arith in
      let rate : calculate_current_error_rate F m.window
          ≡ F.divide (F.of_ℕ (failures m.window)) (F.of_ℕ (get_effective_window_size m.window)) =
        ground arith in
      ap (λ x. F.le x m.config.recovery_threshold) rate
      ∙ ap
          (λ x.
            F.le (F.divide (F.of_ℕ x) (F.of_ℕ (get_effective_window_size m.window)))
              m.config.recovery_threshold)
          none_failed
      ∙ ap (λ x. F.le (F.divide (F.of_ℕ 0) (F.of_ℕ x)) m.config.recovery_threshold) size
      ∙ can.low

  clear-evaluate :
      (now : ℕ) (m : FallbackManager F D)
      → CanRecover m.config
      → IsClear m.config.sliding_window_size m.window
      → evaluate_mode now m ≡ evaluate_in m.current_mode now m
  unfolding evaluate_mode
  clear-evaluate now m can (size, none_failed) = let enough = can.enough in ground arith

  evaluate-leaves :
      (now : ℕ) (m : FallbackManager F D)
      → CanRecover m.config
      → IsRing m
      → IsClear m.config.sliding_window_size m.window
      → m.current_mode ≡ fallback
      → ((evaluate_mode now m).current_mode ≡ transition_mode)
        × ((evaluate_mode now m).last_mode_change ≡ now)
  unfolding evaluate_in transition_to same_mode
  evaluate-leaves now m can ring clear mode =
      let recovered = clear-is_recovered m can ring clear in
      let goes : evaluate_mode now m ≡ evaluate_in fallback now m =
        clear-evaluate now m can clear ∙ ap (λ x. evaluate_in x now m) mode in
      rw goes (ground arith, ground arith)

  evaluate-returns :
      (now : ℕ) (m : FallbackManager F D)
      → CanRecover m.config
      → IsRing m
      → IsClear m.config.sliding_window_size m.window
      → m.current_mode ≡ transition_mode
      → m.last_mode_change + m.config.transition_duration ≤ now
      → (evaluate_mode now m).current_mode ≡ normal_mode
  unfolding evaluate_in transition_to same_mode
  evaluate-returns now m can ring clear mode later =
      let recovered = clear-is_recovered m can ring clear in
      let goes : evaluate_mode now m ≡ evaluate_in transition_mode now m =
        clear-evaluate now m can clear ∙ ap (λ x. evaluate_in x now m) mode in
      rw goes (ground arith)

  abbrev pub evaluated : ℕ → Running F D → Running F D
  evaluated now s = step (evaluates now) s

  -- A state of a run in which the window of the configured size is being cleared.
  record Calm (cfg : FallbackManagerConfig F) (n : ℕ) (m : FallbackManager F D) : Type 0 where
    config : m.config ≡ cfg
    ring : IsRing m
    clearing : Clearing cfg.sliding_window_size m.window n

  run-Calm :
      (cfg : FallbackManagerConfig F) (n : ℕ) (es : List (Event D)) (s : Running F D)
      → AreServed es s
      → Calm cfg n s.manager
      → Calm cfg (ended_calls es s + n) (run es s).manager × SameMode s.manager (run es s).manager
  run-Calm cfg n es s served calm =
      let later = run-Clearing cfg.sliding_window_size n es s served calm.clearing in
      (
        record {
          config = later.1.1.1 ∙ calm.config;
          ring = run-IsRing es s calm.ring;
          clearing = later.0;
        },
        later.1,
      )

  evaluate-Calm :
      (cfg : FallbackManagerConfig F) (n now : ℕ) (s : Running F D)
      → Calm cfg n s.manager
      → Calm cfg n (evaluated now s).manager
  unfolding step
  evaluate-Calm cfg n now s calm =
      let (config, (window, workers)) = evaluate_mode-SameCalls now s.manager in
      record {
        config = config ∙ calm.config;
        ring = step-IsRing (evaluates now) s calm.ring;
        clearing = subst (λ w. Clearing cfg.sliding_window_size w n) (sym window) calm.clearing;
      }

  Calm-IsClear :
      (cfg : FallbackManagerConfig F) (n : ℕ) (m : FallbackManager F D)
      → Calm cfg n m
      → cfg.sliding_window_size ≤ n
      → IsClear m.config.sliding_window_size m.window
  Calm-IsClear cfg n m calm enough =
      subst (λ c. IsClear c.sliding_window_size m.window) (sym calm.config)
        (Clearing-IsClear cfg.sliding_window_size m.window n calm.clearing enough)

  recovers_from :
      (t1 t2 : ℕ) (es1 es2 : List (Event D)) (s : Running F D)
      → CanRecover s.manager.config
      → IsRing s.manager
      → s.manager.current_mode ≡ fallback
      → AreServed es1 s
      → s.manager.config.sliding_window_size ≤ ended_calls es1 s
      → AreServed es2 (evaluated t1 (run es1 s))
      → t1 + s.manager.config.transition_duration ≤ t2
      → ((evaluated t1 (run es1 s)).manager.current_mode ≡ transition_mode)
        × ((evaluated t2 (run es2 (evaluated t1 (run es1 s)))).manager.current_mode ≡ normal_mode)
  unfolding step
  recovers_from t1 t2 es1 es2 s can ring mode served enough served2 later =
      let cfg = s.manager.config in
      let s1 = run es1 s in
      let s2 = evaluated t1 s1 in
      let s3 = run es2 s2 in
      let start = begins_Clearing cfg.sliding_window_size s.manager.window ring.0 ring.1 in
      let first =
        run-Calm cfg 0 es1 s served (record { config = refl; ring = ring; clearing = start }) in
      let leaves =
        evaluate-leaves t1 s1.manager (subst CanRecover (sym first.0.config) can) first.0.ring
          (Calm-IsClear cfg (ended_calls es1 s + 0) s1.manager first.0 (omega arith))
          (first.1.0 ∙ mode) in
      let n = ended_calls es1 s + 0 in
      let second = run-Calm cfg n es2 s2 served2 (evaluate-Calm cfg n t1 s1 first.0) in
      let duration = ap (λ c. c.transition_duration) second.0.config in
      (
        leaves.0,
        evaluate-returns t2 s3.manager (subst CanRecover (sym second.0.config) can) second.0.ring
            (Calm-IsClear cfg (ended_calls es2 s2 + n) s3.manager second.0 (omega arith))
            (second.1.0 ∙ leaves.0) (omega (arith, second.1.1.0 ∙ leaves.1, duration)),
      )

  -- Take any state in the fallback mode that a run of a new manager reaches, with a configuration
  -- under which a full window without failures is enough data and recovered. Once as many calls
  -- have ended as the window has places, each served by what its mode asks, an evaluation begins
  -- the transition; and an evaluation TransitionDuration later, after any calls that are served
  -- alike, returns to the normal mode.
  pub recovers :
      (threshold recovery : F.Carrier) (cfg : FallbackManagerConfig F) (made t1 t2 : ℕ)
      (es0 es1 es2 : List (Event D)) (s : Running F D)
      → s ≡ run es0 (init threshold recovery cfg made)
      → CanRecover s.manager.config
      → s.manager.current_mode ≡ fallback
      → AreServed es1 s
      → s.manager.config.sliding_window_size ≤ ended_calls es1 s
      → AreServed es2 (evaluated t1 (run es1 s))
      → t1 + s.manager.config.transition_duration ≤ t2
      → ((evaluated t1 (run es1 s)).manager.current_mode ≡ transition_mode)
        × ((evaluated t2 (run es2 (evaluated t1 (run es1 s)))).manager.current_mode ≡ normal_mode)
  recovers threshold recovery cfg made t1 t2 es0 es1 es2 s reached can =
      let ring : IsRing s.manager = rw reached (
        run-IsRing es0 (init threshold recovery cfg made)
          (init-IsRing D threshold recovery cfg made)) in
      recovers_from t1 t2 es1 es2 s can ring
