-- ===== src/GrpcClient/Retry.antt =====
-- The loop of executeWithRetry. A duration times the multiplier, through float64, is a parameter of
-- the policy. `pause n` is the context's error where it ends the wait before attempt n.
use advanced_golang_tutorial.Prelude.{
  ℕ, zero, suc, ◌+◌, Bool, true, false, List, [], ◌∷◌, Option, none, some, if◌then◌else◌, ◌==◌, ℤ,
  pos, negsuc, leb_ℤ, leb,
}
pub mod Story
pub mod Waits

pub record RetryPolicy : Type 0 where
  pub max_retries : ℤ
  pub initial_backoff : ℤ
  pub max_backoff : ℤ
  pub multiplied : ℤ → ℤ

pub data Ended (E : Type 0) : Type 0 where
  succeeded : Ended E
  canceled : E → Ended E
  gave_up : Option E → Ended E

-- How the loop ended, how often the operation ran, the waits before the attempts, and the state
-- that the operation left.
pub record Loop (S E : Type 0) : Type 0 where
  pub ended : Ended E
  pub ran : ℕ
  pub waits : List ℤ
  pub state : S

abbrev pub min_ℤ : ℤ → ℤ → ℤ
min_ℤ a b = if leb_ℤ a b then a else b

-- range maxRetries + 1, which wraps around at the greatest int; a negative range is empty.
unfoldable pub max_attempts : RetryPolicy → ℕ
max_attempts policy = elim policy.max_retries [
  | pos n ↦ if leb 9223372036854775807 n then 0 else suc n
  | negsuc n ↦ 0
]

unfoldable pub next_backoff : RetryPolicy → ℕ → ℤ → ℤ
next_backoff policy attempt backoff =
    if attempt == 0 then backoff else min_ℤ (policy.multiplied backoff) policy.max_backoff

-- The error of the context, if it ends the wait; there is none before the first attempt.
unfoldable pub interrupted : {E : Type 0} → (ℕ → Option E) → ℕ → Option E
interrupted pause attempt = if attempt == 0 then none else pause attempt

module _ {S E : Type 0} where
  -- The loop with one more run and the wait before it.
  pub one_more : ℕ → ℤ → Loop S E → Loop S E
  one_more attempt backoff l = record l {
    ran = suc l.ran;
    waits = if attempt == 0 then l.waits else backoff ∷ l.waits;
  }

  unfoldable pub attempts :
      (E → Bool)
      → RetryPolicy
      → (ℕ → Option E)
      → (S → Option E × S)
      → ℕ
      → ℕ
      → ℤ
      → Option E
      → S
      → Loop S E
  unfolding one_more interrupted
  attempts is_retryable policy pause operation zero attempt backoff last s = record {
    ended = gave_up last;
    ran = 0;
    waits = [];
    state = s;
  }
  attempts is_retryable policy pause operation (suc n) attempt backoff last s =
      let (error, s') = operation s in
      elim (interrupted pause attempt) [
        | some e ↦ record {
          ended = canceled e;
          ran = 0;
          waits = if attempt == 0 then [] else backoff ∷ [];
          state = s;
        }
        | none ↦ one_more attempt backoff (elim error [
          | none ↦ record { ended = succeeded; ran = 0; waits = []; state = s' }
          | some e ↦ elim (is_retryable e) [
            | false ↦ record { ended = gave_up (some e); ran = 0; waits = []; state = s' }
            | true ↦
                attempts is_retryable policy pause operation n (suc attempt)
                  (next_backoff policy attempt backoff) (some e) s'
          ]
        ])
      ]
