-- ===== src/GrpcClient/Stream.antt =====
-- ListUsersStream: what its goroutine sends to the channel of users. What the server streams, and
-- how each stream ends, are a parameter by attempt.
use mathlib.Core.List.{append_assoc, append-nil}
use advanced_golang_tutorial.Prelude.{
  ℕ, zero, suc, ◌≡◌, sym, ap, ◌∙◌, Bool, true, List, [], ◌++◌, Option, some,
}
use advanced_golang_tutorial.GrpcClient.Breaker.{can_execute}
use advanced_golang_tutorial.GrpcClient.Retry.{RetryPolicy}
use advanced_golang_tutorial.GrpcClient.Retry.Story.{after_runs}
use advanced_golang_tutorial.GrpcClient.Calls.{execute_with_retry-admitted}
use advanced_golang_tutorial.GrpcClient.{Client, Called, execute_with_retry}

-- An attempt without a client in the pool, one that the server refuses, and one that streams users
-- until the end of the stream (`none`) or an error of the stream or of the context.
pub data Attempt (U E : Type 0) : Type 0 where
  no_client : Attempt U E
  refused : E → Attempt U E
  streamed : List U → Option E → Attempt U E

pub record Sender (U : Type 0) : Type 0 where
  pub attempt : ℕ
  pub sent : List U

module _ {U E : Type 0} (no_available_client : E) where
  unfoldable pub reply : Attempt U E → Option E × List U
  reply no_client = (some no_available_client, [])
  reply (refused e) = (some e, [])
  reply (streamed users end) = (end, users)

  -- The operation.
  unfoldable pub list_users : (ℕ → Attempt U E) → Sender U → Option E × Sender U
  unfolding reply
  list_users server s =
      let (error, users) = reply (server s.attempt) in
      (error, record { attempt = suc s.attempt; sent = s.sent ++ users })

  -- The goroutine, with an empty channel.
  unfoldable pub list_users_stream :
      (E → Bool)
      → RetryPolicy
      → (ℕ → Option E)
      → (ℕ → Attempt U E)
      → ℕ
      → ℕ
      → Client
      → Called (Sender U) E
  unfolding list_users
  list_users_stream is_retryable policy pause server now later c =
      execute_with_retry is_retryable policy pause (list_users server) now later c
        (record { attempt = 0; sent = [] })

  -- The users of some attempts in a row.
  pub received : (ℕ → Attempt U E) → ℕ → ℕ → List U
  received server zero from = []
  received server (suc k) from = (reply (server from)).1 ++ received server k (suc from)

  after_runs-sent :
      (is_retryable : E → Bool) (server : ℕ → Attempt U E) (k : ℕ) (s : Sender U)
      → (after_runs is_retryable (list_users server) k s).sent
        ≡ s.sent ++ received server k s.attempt
  unfolding list_users received
  after_runs-sent is_retryable server zero s = sym (append-nil s.sent)
  after_runs-sent is_retryable server (suc k) s =
      after_runs-sent is_retryable server k (list_users server s).1 ∙ append_assoc s.sent _ _

  -- The channel gets the users of every attempt, one after the other: those of a stream that broke
  -- come again with the next attempt's.
  pub list_users_stream-sent :
      (is_retryable : E → Bool) (policy : RetryPolicy) (pause : ℕ → Option E)
      (server : ℕ → Attempt U E) (now later : ℕ) (c : Client)
      → (can_execute now c.breaker).0 ≡ true
      → let r = list_users_stream is_retryable policy pause server now later c in
        r.state.sent ≡ received server r.ran 0
  unfolding list_users_stream
  list_users_stream-sent is_retryable policy pause server now later c e =
      let (k, before, outcome, state) =
        execute_with_retry-admitted is_retryable (list_users server) policy pause now later c
          (record { attempt = 0; sent = [] }) e in
      ap (λ s. s.sent) state
      ∙ after_runs-sent is_retryable server _ (record { attempt = 0; sent = [] })
