-- ===== src/Fallback/Tests.antt =====
-- A service that fails twice and is given up, and the way back.
use advanced_golang_tutorial.Prelude.{
  ℕ, ◌*◌, ◌/◌, ◌≡◌, refl, false, List, [], ◌∷◌, none, some, arith, leb, ◌==◌, Float64,
}
use advanced_golang_tutorial.Fallback.Sliding.{
  fallback, transition_mode, normal_mode, add_to_window, get_effective_window_size, failures,
  empty_window,
}
use advanced_golang_tutorial.Fallback.Manager.{
  FallbackManagerConfig, Answers, calculate_current_error_rate, same_mode, count_change,
  count_result,
}
use advanced_golang_tutorial.Fallback.Execution.{
  enter_execute, leave_execute, open_execute, finish_execute, execute_in, execute_normal_mode,
  execute_fallback_mode, get_from_cache, record_result,
}
use advanced_golang_tutorial.Fallback.{
  new_fallback_manager, evaluate_mode, evaluate_in, transition_to,
}
use advanced_golang_tutorial.Fallback.Runs.{
  Running, Event, arrives, enters, backs_out, opens, finishes, leaves, evaluates, init, step, run,
}
use advanced_golang_tutorial.Fallback.Frames.{Serves}
use advanced_golang_tutorial.Fallback.Serving.{IsAnswered, IsServed, AreServed, ended, ended_calls}
use advanced_golang_tutorial.Fallback.Workers.{AreCounted, workers_limited}
use advanced_golang_tutorial.Fallback.Recovery.{CanRecover, evaluated, recovers}

-- Rates in percent.
abbrev percent : Float64
percent = record {
  Carrier = ℕ;
  of_ℕ = λ n. n;
  divide = λ a b. a * 100 / b;
  is_zero = λ a. a == 0;
  le = λ a b. leb a b;
}

abbrev config : FallbackManagerConfig percent
config = record {
  error_rate_threshold = 50;
  recovery_threshold = 10;
  minimum_request_count = 1;
  sliding_window_size = 2;
  evaluation_interval = 10;
  transition_duration = 30;
  max_concurrent_workers = 1;
}

abbrev broken : Answers ℕ
broken = record { service = none; can_provide = false; provided = some 7; tries_service = false }

abbrev two_failures : List (Event ℕ)
two_failures =
    arrives
    ∷ enters
    ∷ opens
    ∷ finishes 0 [] 1 1 broken
    ∷ leaves
    ∷ arrives
    ∷ enters
    ∷ opens
    ∷ finishes 0 [] 2 1 broken
    ∷ leaves
    ∷ evaluates 10
    ∷ []

abbrev two_calls : List (Event ℕ)
two_calls =
    arrives
    ∷ enters
    ∷ opens
    ∷ finishes 0 [] 11 1 broken
    ∷ leaves
    ∷ arrives
    ∷ enters
    ∷ opens
    ∷ finishes 0 [] 12 1 broken
    ∷ leaves
    ∷ []

given_up : Running percent ℕ
unfolding run init
given_up = run two_failures (init 30 10 config 0)

given_up_lem : given_up ≡ run two_failures (init 30 10 config 0)
unfolding given_up
given_up_lem = refl

given_up_facts :
    CanRecover given_up.manager.config
    × ((given_up.manager.current_mode ≡ fallback)
        × (AreServed two_calls given_up
            × ((ended_calls two_calls given_up ≡ 2)
                × ((given_up.manager.config.sliding_window_size ≡ 2)
                    × (given_up.manager.config.transition_duration ≡ 30)))))
unfolding given_up run init new_fallback_manager step enter_execute leave_execute open_execute
    finish_execute execute_in execute_normal_mode execute_fallback_mode get_from_cache record_result
    evaluate_mode evaluate_in transition_to calculate_current_error_rate get_effective_window_size
    failures add_to_window empty_window same_mode count_change count_result AreServed IsServed
    IsAnswered Serves ended_calls ended
given_up_facts = (
  record { enough = omega arith; low = refl },
  (
    refl,
    (
      (tt, (tt, (tt, ((7, refl), (tt, (tt, (tt, (tt, ((7, refl), (tt, tt)))))))))),
      (refl, (refl, refl)),
    ),
  ),
)

none_served : (s : Running percent ℕ) → AreServed [] s
unfolding AreServed
none_served s = tt

recovers_example :
    ((evaluated 20 (run two_calls given_up)).manager.current_mode ≡ transition_mode)
    × ((evaluated 50 (run [] (evaluated 20 (run two_calls given_up)))).manager.current_mode
        ≡ normal_mode)
recovers_example =
    recovers 30 10 config 0 20 50 two_failures two_calls [] given_up given_up_lem given_up_facts.0
      given_up_facts.1.0 given_up_facts.1.1.0
      (omega (arith, given_up_facts.1.1.1.0, given_up_facts.1.1.1.1.0))
      (none_served (evaluated 20 (run two_calls given_up)))
      (omega (arith, given_up_facts.1.1.1.1.1))

-- A second call while the first one runs is refused.
abbrev overlap : List (Event ℕ)
overlap = arrives ∷ arrives ∷ enters ∷ enters ∷ opens ∷ backs_out ∷ []

workers_limited_example : AreCounted (run overlap (init {F = percent} 30 10 config 0))
workers_limited_example = workers_limited 30 10 config 0 overlap
