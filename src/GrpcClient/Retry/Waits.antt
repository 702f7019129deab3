-- ===== src/GrpcClient/Retry/Waits.antt =====
-- The waits between the attempts of executeWithRetry.
use advanced_golang_tutorial.Prelude.{
  ℕ, zero, suc, ◌≤◌, ◌≡◌, refl, Bool, false, List, [], ◌∷◌, Option, none, arith, ℤ, ◌≤ℤ◌, leb_ℤ,
  Bool-cases, Option-cases, ◌==◌, All, length, ap, pos, inl, inr, leb,
}
use advanced_golang_tutorial.GrpcClient.Retry.Story.{
  attempts-cut, attempts-worked, attempts-again, attempts-hopeless,
}
use advanced_golang_tutorial.GrpcClient.Retry.{
  RetryPolicy, one_more, interrupted, attempts, next_backoff, min_ℤ, max_attempts,
}

min_le : (a b : ℤ) → min_ℤ a b ≤ℤ b
min_le a b = elim (Bool-cases (leb_ℤ a b)) [
  | inl less ↦ rw less (ground arith)
  | inr more ↦ rw more (ground arith)
]

-- The backoffs from one on.
abbrev pub schedule : RetryPolicy → ℕ → ℤ → List ℤ
schedule policy zero backoff = []
schedule policy (suc k) backoff =
    backoff ∷ schedule policy k (min_ℤ (policy.multiplied backoff) policy.max_backoff)

-- A list that is the schedule as far as it goes, at most `n` long.
abbrev pub Follows : RetryPolicy → ℕ → ℤ → List ℤ → Type 0
Follows policy n backoff waits =
    (waits ≡ schedule policy (length waits) backoff) × (length waits ≤ n)

schedule-bounded :
    (policy : RetryPolicy) (k : ℕ) (backoff : ℤ)
    → backoff ≤ℤ policy.max_backoff
    → All (λ w. w ≤ℤ policy.max_backoff) (schedule policy k backoff)
schedule-bounded policy zero backoff h = tt
schedule-bounded policy (suc k) backoff h =
    (h, schedule-bounded policy k _ (min_le (policy.multiplied backoff) policy.max_backoff))

not_first : (n : ℕ) → (suc n == 0) ≡ false
not_first n = ground arith

module _ {S E : Type 0} (is_retryable : E → Bool) (policy : RetryPolicy) (pause : ℕ → Option E)
    (operation : S → Option E × S) where
  later-waits :
      (n attempt : ℕ) (backoff : ℤ) (last : Option E) (s : S)
      → Follows policy n backoff
          (attempts is_retryable policy pause operation n (suc attempt) backoff last s).waits
  unfolding attempts one_more next_backoff
  later-waits zero attempt backoff last s = (refl, omega arith)
  later-waits (suc n) attempt backoff last s =
      elim (Option-cases (interrupted pause (suc attempt))) [
        | inr (e, cut) ↦
            rw
              (attempts-cut is_retryable operation policy pause n (suc attempt) backoff last s e
                cut)
              (rw (not_first attempt) (refl, omega arith))
        | inl goes_on ↦ elim (Option-cases (operation s).0) [
          | inl fine ↦
              rw
                (attempts-worked is_retryable operation policy pause n (suc attempt) backoff last s
                  goes_on fine)
                (rw (not_first attempt) (refl, omega arith))
          | inr (e, bad) ↦ elim (Bool-cases (is_retryable e)) [
            | inl again ↦
                let (same, short) =
                  later-waits n (suc attempt) (min_ℤ (policy.multiplied backoff) policy.max_backoff)
                    (operation s).0 (operation s).1 in
                rw
                  (attempts-again is_retryable operation policy pause n (suc attempt) backoff last s
                    e goes_on bad again)
                  (rw (not_first attempt) (ap (λ w. backoff ∷ w) same, omega (arith, short)))
            | inr never ↦
                rw
                  (attempts-hopeless is_retryable operation policy pause n (suc attempt) backoff
                    last s e goes_on bad never)
                  (rw (not_first attempt) (refl, omega arith))
          ]
        ]
      ]

  first-waits :
      (n : ℕ) (backoff : ℤ) (last : Option E) (s : S)
      → Follows policy n backoff
          (attempts is_retryable policy pause operation (suc n) 0 backoff last s).waits
  unfolding one_more next_backoff interrupted
  first-waits n backoff last s = elim (Option-cases (operation s).0) [
    | inl fine ↦
        rw (attempts-worked is_retryable operation policy pause n 0 backoff last s refl fine)
          (refl, omega arith)
    | inr (e, bad) ↦ elim (Bool-cases (is_retryable e)) [
      | inl again ↦
          rw
            (attempts-again is_retryable operation policy pause n 0 backoff last s e refl bad again)
            (later-waits n 0 backoff (operation s).0 (operation s).1)
      | inr never ↦
          rw
            (attempts-hopeless is_retryable operation policy pause n 0 backoff last s e refl bad
              never)
            (refl, omega arith)
    ]
  ]

  -- The waits of a call are the first ones of the backoffs that begin with InitialBackoff and grow by
  -- the multiplier, up to MaxBackoff. There are at most MaxRetries of them, and if InitialBackoff is
  -- at most MaxBackoff, none is longer than that.
  pub waits_follow :
      (m : ℕ) (s : S)
      → policy.max_retries ≡ pos m
      → let l =
          attempts is_retryable policy pause operation
            (max_attempts policy)
            0
            policy.initial_backoff
            none
            s in
        (l.waits ≡ schedule policy (length l.waits) policy.initial_backoff)
        × (length l.waits ≤ m)
        × (policy.initial_backoff ≤ℤ policy.max_backoff
            → All (λ w. w ≤ℤ policy.max_backoff) l.waits)
  unfolding max_attempts attempts
  waits_follow m s e = elim (Bool-cases (leb 9223372036854775807 m)) [
    | inl wraps ↦
        let count : max_attempts policy ≡ 0 = rw (e, max_attempts) (ground arith) in
        rw count (refl, omega arith, λ h. tt)
    | inr small ↦
        let count : max_attempts policy ≡ suc m = rw (e, max_attempts) (ground arith) in
        let (same, short) = first-waits m policy.initial_backoff none s in
        rw count (same, short, λ h. rw same (schedule-bounded policy _ policy.initial_backoff h))
  ]
