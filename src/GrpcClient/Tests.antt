-- ===== src/GrpcClient/Tests.antt =====
-- Calls of the client, and the theorems at concrete inputs.
use advanced_golang_tutorial.Prelude.{
  ℕ, suc, ◌-◌, ◌*◌, ◌≤◌, if◌then◌else◌, ◌≡◌, refl, Bool, List, [], ◌∷◌, Option, none, some, arith,
  ◌==◌, length, pos, negsuc, All, ◌≤ℤ◌, map,
}
use advanced_golang_tutorial.GrpcClient.Breaker.{
  half_open, new_circuit_breaker, can_execute, on_success, on_failure,
}
use advanced_golang_tutorial.GrpcClient.Breaker.History.{Event, asks, succeeds, fails, after, step}
use advanced_golang_tutorial.GrpcClient.Retry.{RetryPolicy, attempts, max_attempts}
use advanced_golang_tutorial.GrpcClient.Retry.Story.{after_runs, Retried}
use advanced_golang_tutorial.GrpcClient.Retry.Waits.{schedule, waits_follow}
use advanced_golang_tutorial.GrpcClient.Calls.{Outcome, execute_with_retry-admitted, no_error}
use advanced_golang_tutorial.GrpcClient.Pool.{picked, get_clients, get_client, round_robin}
use advanced_golang_tutorial.GrpcClient.Stream.{
  Attempt, streamed, received, list_users_stream, list_users_stream-sent, list_users, reply,
}
use advanced_golang_tutorial.GrpcClient.{Client, failed, execute_with_retry, settle}

-- Latest first: two failures trip the breaker, a call probes it after the timeout.
abbrev history : List Event
history = asks 60 ∷ asks 20 ∷ fails 10 ∷ fails 9 ∷ succeeds ∷ fails 3 ∷ []

history_end : (after history (new_circuit_breaker 2 30)).state ≡ half_open
unfolding after step new_circuit_breaker can_execute on_failure on_success
history_end = refl

abbrev client : Client
client = record { breaker = new_circuit_breaker 2 30; breaker_trips = 0 }

-- Waits of 5, 10, 20 and then 25.
abbrev policy : RetryPolicy
policy = record {
  max_retries = pos 3;
  initial_backoff = pos 5;
  max_backoff = pos 25;
  multiplied = λ b. elim b [ pos n ↦ pos (2 * n) | negsuc n ↦ negsuc n ];
}

-- Error 14 allows another try.
abbrev is_unavailable : ℕ → Bool
is_unavailable e = e == 14

-- Fails with 14 until the state is 0.
abbrev countdown : ℕ → Option ℕ × ℕ
countdown s = if s == 0 then (none, 0) else (some 14, s - 1)

never_canceled : ℕ → Option ℕ
never_canceled n = none

third_time :
    let r = execute_with_retry is_unavailable policy never_canceled countdown 4 8 client 2 in
    (r.error ≡ none) × (r.ran ≡ 3) × (r.state ≡ 0)
unfolding execute_with_retry can_execute new_circuit_breaker attempts max_attempts never_canceled
    settle
third_time = (refl, refl, refl)

-- Four attempts are not enough.
given_up :
    let r = execute_with_retry is_unavailable policy never_canceled countdown 4 8 client 9 in
    (r.error ≡ some (failed 14)) × (r.ran ≡ 4) × (r.state ≡ 5) × (r.client.breaker.failures ≡ 1)
unfolding execute_with_retry can_execute new_circuit_breaker attempts max_attempts never_canceled
    settle on_failure
given_up = (refl, refl, refl, refl)

execute_with_retry-admitted_example :
    let r = execute_with_retry is_unavailable policy never_canceled countdown 4 8 client 2 in
    (k : ℕ) × Retried is_unavailable countdown k 2
    × Outcome is_unavailable countdown never_canceled
        (max_attempts policy)
        8
        (can_execute 4 client.breaker).1
        2
        k
        r
    × (r.state ≡ after_runs is_unavailable countdown r.ran 2)
unfolding can_execute new_circuit_breaker
execute_with_retry-admitted_example =
    execute_with_retry-admitted is_unavailable countdown policy never_canceled 4 8 client 2 refl

no_error_example :
    let r = execute_with_retry is_unavailable policy never_canceled countdown 4 8 client 2 in
    (k : ℕ) × Retried is_unavailable countdown k 2
    × ((countdown (after_runs is_unavailable countdown k 2)).0 ≡ none)
    × (r.client.breaker ≡ on_success (can_execute 4 client.breaker).1)
    × (r.ran ≡ suc k)
no_error_example =
    no_error is_unavailable countdown policy never_canceled 4 8 3 client 2 refl (omega arith)
      third_time.0

waits_follow_example :
    let l =
      attempts is_unavailable policy never_canceled countdown
        (max_attempts policy)
        0
        (pos 5)
        none
        9 in
    (l.waits ≡ schedule policy (length l.waits) (pos 5))
    × (length l.waits ≤ 3)
    × (policy.initial_backoff ≤ℤ policy.max_backoff → All (λ w. w ≤ℤ policy.max_backoff) l.waits)
waits_follow_example = waits_follow is_unavailable policy never_canceled countdown 3 9 refl

-- The first stream breaks after two users, and the second brings all three.
abbrev server : ℕ → Attempt ℕ ℕ
server n = if n == 0 then streamed (1 ∷ 2 ∷ []) (some 14) else streamed (1 ∷ 2 ∷ 3 ∷ []) none

users_twice :
    (list_users_stream 5 is_unavailable policy never_canceled server 4 8 client).state.sent
    ≡ 1 ∷ 2 ∷ 1 ∷ 2 ∷ 3 ∷ []
unfolding list_users_stream list_users reply execute_with_retry can_execute new_circuit_breaker
    attempts max_attempts never_canceled settle
users_twice = refl

list_users_stream-sent_example :
    let r = list_users_stream 5 is_unavailable policy never_canceled server 4 8 client in
    r.state.sent ≡ received 5 server r.ran 0
unfolding can_execute new_circuit_breaker
list_users_stream-sent_example =
    list_users_stream-sent 5 is_unavailable policy never_canceled server 4 8 client refl

-- The first call of a new pool takes the second client.
first_client : (get_client {C = ℕ} (record { clients = 7 ∷ 8 ∷ 9 ∷ []; current = 0 })).0 ≡ picked 8
unfolding get_client
first_client = refl

round_robin_example :
    get_clients {C = ℕ} 3 (record { clients = 7 ∷ 8 ∷ 9 ∷ []; current = 0 })
    ≡ map picked (8 ∷ 9 ∷ 7 ∷ [])
round_robin_example = round_robin (7 ∷ []) (8 ∷ 9 ∷ []) 0 refl (omega arith)
