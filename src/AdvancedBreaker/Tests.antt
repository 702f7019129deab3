-- ===== src/AdvancedBreaker/Tests.antt =====
-- Runs of a breaker and the theorems at concrete inputs.
use advanced_golang_tutorial.Prelude.{
  ℕ, ◌≡◌, refl, Bool, true, false, List, [], ◌∷◌, arith, leb, ◌==◌, ◌*◌, ◌/◌, Float64,
}
use advanced_golang_tutorial.AdvancedBreaker.{
  closed, opened, half_open, Config, Breaker, before_request, after_request, update_state,
  evaluate_state_transition, should_trip_to_open, rate,
}
use advanced_golang_tutorial.AdvancedBreaker.Counters.{metrics_from, update_metrics}
use advanced_golang_tutorial.AdvancedBreaker.Sliding.{
  RequestResult, add_to_window, failures, empty_window,
}
use advanced_golang_tutorial.AdvancedBreaker.Sliding.Recent.{fill, window_figures}
use advanced_golang_tutorial.AdvancedBreaker.Execute.{Outcome, panicked, leave}
use advanced_golang_tutorial.AdvancedBreaker.New.{new_advanced_circuit_breaker}
use advanced_golang_tutorial.AdvancedBreaker.System.{
  Event, call, report, leaves, System, step, run, IsBounded, IsConserved,
}
use advanced_golang_tutorial.AdvancedBreaker.Active.{run-IsBounded, run-IsConserved, admitted_alone}
use advanced_golang_tutorial.AdvancedBreaker.Transitions.{after_request-verdict}

-- Rates in per cent: enough to run the breaker.
abbrev percent : Float64
percent = record {
  Carrier = ℕ;
  of_ℕ = λ n. 100 * n;
  divide = λ a b. a / (b / 100);
  is_zero = λ n. n == 0;
  le = leb;
}

-- Three places, at least two results, half of them failed.
abbrev sample_config : Config percent
sample_config = record {
  failure_threshold = 2;
  failure_rate_threshold = 50;
  slow_call_threshold = 20;
  slow_call_rate_threshold = 80;
  minimum_request_count = 2;
  open_timeout = 30;
  max_concurrent_requests = 4;
  sliding_window_size = 3;
  observes_state = true;
  observes_results = false;
}

abbrev start : System percent
start = record {
  breaker = new_advanced_circuit_breaker percent sample_config 1;
  running = 0;
  leaving = 0;
}

abbrev history : List Event
history =
    call 1
    ∷ call 2
    ∷ report false 1 3
    ∷ report false 2 4
    ∷ leaves
    ∷ leaves
    ∷ call 10
    ∷ call 40
    ∷ call 41
    ∷ []

-- Two failures open the breaker; past the timeout one probe runs and the next is refused.
history_end :
    ((run percent start history).breaker.state ≡ half_open)
    × ((run percent start history).running ≡ 1)
    × ((run percent start history).leaving ≡ 0)
unfolding run step before_request update_state after_request new_advanced_circuit_breaker leave
    evaluate_state_transition should_trip_to_open add_to_window update_metrics
history_end = (refl, refl, refl)

start-IsBounded : IsBounded percent start
unfolding new_advanced_circuit_breaker
start-IsBounded = record { counted = refl; limited = omega arith; small = omega arith }

run-IsBounded_example : IsBounded percent (run percent start history)
run-IsBounded_example = run-IsBounded percent start history start-IsBounded

run-IsConserved_example : IsConserved percent (run percent start history)
unfolding new_advanced_circuit_breaker
run-IsConserved_example = run-IsConserved percent start history (ground arith) start-IsBounded refl

admitted_alone_example : (step percent start (call 5)).running ≡ 1
unfolding new_advanced_circuit_breaker before_request update_state
admitted_alone_example = (admitted_alone percent 5 start start-IsBounded refl).0

abbrev result : Bool → RequestResult
result b = record { success = b; duration = 5; timestamp = 9; is_slow_call = false }

abbrev results : List RequestResult
results = result false ∷ result true ∷ result false ∷ result true ∷ []

window_figures_example : failures (fill (empty_window 3) results) ≡ 1
window_figures_example = (window_figures 3 results (omega arith)).1

-- A half-open breaker whose window still holds three failures.
abbrev recovering : Breaker percent
recovering = record {
  config = sample_config;
  state = half_open;
  metrics = metrics_from 1;
  state_expiry = 0;
  window = record {
    requests = result false ∷ result false ∷ result false ∷ result true ∷ [];
    index = 3;
    full = true;
  };
  active_requests = 0;
  generation = 2;
  callbacks = [];
}

after_request-verdict_example : (after_request percent true 5 50 recovering).state ≡ closed
after_request-verdict_example = (after_request-verdict percent true 5 50 recovering).0

-- The window outlives the recovery, so the next success opens the breaker again.
relapse :
    (after_request percent true 5 51 (after_request percent true 5 50 recovering)).state ≡ opened
unfolding after_request evaluate_state_transition should_trip_to_open add_to_window update_metrics
    rate
relapse = refl

-- The probe of the recovering breaker panics.
abbrev panic : Outcome ℕ
panic = panicked
