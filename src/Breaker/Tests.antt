-- ===== src/Breaker/Tests.antt =====
-- Runs of a breaker and the theorems at concrete inputs.
use advanced_golang_tutorial.Prelude.{
  ℕ, ◌≡◌, refl, true, false, List, [], ◌∷◌, none, some, arith, leb,
}
use advanced_golang_tutorial.Breaker.{
  closed, half_open, opened, zero_counts, circuit_breaker_open, Config, Breaker, failed_counts,
  current_state, before_request, after_request, reset,
}
use advanced_golang_tutorial.Breaker.System.{Event, call, finish, System, step, run, Accounts}
use advanced_golang_tutorial.Breaker.InFlight.{run-Accounts}
use advanced_golang_tutorial.Breaker.Verdict.{concluded, after_request-concluded, open_window}
use advanced_golang_tutorial.Breaker.Resets.{reset_lifetime}
use advanced_golang_tutorial.Breaker.Execute.Agreement.{execute_agrees}
use advanced_golang_tutorial.Breaker.Execute.{returned, finished, execute, execute_with_timeout}
use advanced_golang_tutorial.Breaker.Changes.{IsLogged, run-IsLogged}

-- Trips after two failures; an open breaker lasts 30, a generation 100; two probes.
abbrev sample_config : Config ℕ ℕ
sample_config = record {
  max_requests = 2;
  interval = 100;
  timeout = 30;
  ready_to_trip = λ c. leb 2 c.total_failures;
  observed = true;
  is_successful = λ e. elim e [ none ↦ true | some x ↦ false ];
  fallback = none;
  slow_call_threshold = 20;
}

abbrev fresh : Breaker ℕ ℕ
fresh = record {
  config = sample_config;
  state = closed;
  generation = 1;
  counts = zero_counts;
  expiry = 101;
  changes = [];
}

abbrev history : List Event
history =
    call 1
    ∷ call 2
    ∷ call 3
    ∷ finish 0 false 1 4
    ∷ finish 0 false 2 5
    ∷ call 20
    ∷ call 36
    ∷ call 37
    ∷ call 38
    ∷ []

abbrev start : System ℕ ℕ
start = record { breaker = fresh; in_flight = [] }

-- Two failures trip the breaker; past the timeout two probes pass and the third is refused, while
-- the slow request of the first generation still runs.
history_end :
    ((run start history).breaker.state ≡ half_open)
    × ((run start history).in_flight ≡ 3 ∷ 3 ∷ 1 ∷ [])
    × ((run start history).breaker.changes ≡ (opened, half_open) ∷ (closed, opened) ∷ [])
unfolding run step before_request after_request
history_end = (refl, refl, refl)

run-Accounts_example : Accounts (run start history).breaker (run start history).in_flight
run-Accounts_example =
    run-Accounts start history (omega arith) (omega arith)
      (record { known = tt; conserved = refl; probing = λ e. cc })

run-IsLogged_example : IsLogged (run start history).breaker
run-IsLogged_example =
    run-IsLogged start history (ground arith) (record { observes = refl; leads = refl })

after_request-concluded_example :
    let b = record fresh { counts = record zero_counts { requests = 2; total_failures = 1 } } in
    (after_request 1 false 7 50 b) ≡ concluded opened false 7 50 b
unfolding current_state failed_counts
after_request-concluded_example =
    after_request-concluded 1 false 7 50
      (record fresh { counts = record zero_counts { requests = 2; total_failures = 1 } })

abbrev tripped : Breaker ℕ ℕ
tripped = record fresh { state = opened; generation = 2; expiry = 35 }

open_window_example : before_request 35 tripped ≡ (2, some circuit_breaker_open, tripped)
open_window_example = (open_window 35 tripped refl (omega arith)).0 (omega arith)

reset_lifetime_example :
    let r = reset 60 (record fresh { state = half_open; expiry = 0 }) in
    current_state 1_000_000 r ≡ r
reset_lifetime_example =
    (reset_lifetime 60 1_000_000 (record fresh { state = half_open; expiry = 0 }) (omega arith)
        (omega arith)).5
      refl

execute_agrees_example :
    (execute_with_timeout (λ b. b) (finished (returned (some 5, none)) 25) 40 10 36 fresh).1
    ≡ (execute (λ b. b) (returned (some 5, none)) 10 25 36 fresh).1
execute_agrees_example = (execute_agrees (λ b. b) (some 5, none) 25 40 10 36 fresh).1
