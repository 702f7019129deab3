-- ===== src/RateLimiter/Bucket/Retry.antt =====
-- Refusals: when they end, what they count, and how two rules share a bucket.
use advanced_golang_tutorial.Prelude.{
  ℕ, ◌+◌, ◌-◌, ◌≤◌, ◌<◌, ◌≡◌, refl, ◌∙◌, ◌⊎◌, true, false, List, [], ◌∷◌, arith, two_63, inl, inr,
  pos, sub_ℕ,
}
use advanced_golang_tutorial.RateLimiter.Rules.{Rule}
use advanced_golang_tutorial.RateLimiter.Bucket.{
  ClientBucket, RateLimitResult, burst, general, roll_window, roll_burst, decide, check_at,
}
use advanced_golang_tutorial.RateLimiter.Bucket.Window.{IsSane}

-- The counts of a bucket within the limits of a rule, or just at them.
abbrev pub WithinLimits : Rule → ClientBucket → Type 0
WithinLimits rule b = (b.request_count ≤ rule.limit) × (b.burst_count ≤ rule.burst_limit)

-- The decision, read off the counts.
decide_free :
    (rule : Rule) (now : ℕ) (c : ClientBucket)
    → IsSane rule
    → c.burst_count < rule.burst_limit
    → c.request_count < rule.limit
    → (decide rule now c).0.allowed ≡ true
unfolding decide
decide_free rule now c s u v = ground arith

decide_calm :
    (rule : Rule) (now : ℕ) (c : ClientBucket)
    → IsSane rule
    → c.burst_count < rule.burst_limit
    → (decide rule now c).0.limit_rule ≡ general rule.name
unfolding decide
decide_calm rule now c s u = ground arith

decide_full :
    (rule : Rule) (now : ℕ) (c : ClientBucket)
    → IsSane rule
    → c.request_count < two_63
    → rule.limit ≤ c.request_count
    → (decide rule now c).0.allowed ≡ false
unfolding decide
decide_full rule now c s u v = ground arith

-- Why a refused request was refused.
abbrev Reason : Rule → ClientBucket → RateLimitResult → Type 0
Reason rule c r =
    ((r.limit_rule ≡ burst rule.name) × (r.reset_time ≡ c.burst_start + rule.burst_window))
    ⊎ ((r.limit_rule ≡ general rule.name)
        × (r.reset_time ≡ c.window_start + rule.window)
        × (c.burst_count < rule.burst_limit))

decide_refused :
    (rule : Rule) (now : ℕ) (c : ClientBucket)
    → IsSane rule
    → c.burst_count ≤ rule.burst_limit
    → (decide rule now c).0.allowed ≡ false
    → ((decide rule now c).1 ≡ c)
      × ((decide rule now c).0.retry_after ≡ sub_ℕ (decide rule now c).0.reset_time now)
      × Reason rule c (decide rule now c).0
unfolding decide
decide_refused rule now c s v r = ground arith

-- What the two rolls leave.
rolled_ahead :
    (rule : Rule) (now : ℕ) (b : ClientBucket)
    → IsSane rule
    → WithinLimits rule b
    → let c = roll_burst rule now (roll_window rule now b) in
      (now < c.window_start + rule.window)
      × (now < c.burst_start + rule.burst_window)
      × (c.burst_count ≤ rule.burst_limit)
unfolding roll_burst roll_window
rolled_ahead rule now b s w = ground arith

rolled_later :
    (rule : Rule) (later : ℕ) (c : ClientBucket)
    → let d = roll_burst rule later (roll_window rule later c) in
      (d.burst_count ≤ c.burst_count)
      × (c.window_start + rule.window ≤ later → d.request_count ≡ 0)
      × (c.burst_start + rule.burst_window ≤ later → d.burst_count ≡ 0)
unfolding roll_burst roll_window
rolled_later rule later c = (ground arith, λ h. ground arith, λ h. ground arith)

again_free :
    (rule : Rule) (now later : ℕ) (c : ClientBucket)
    → IsSane rule
    → 0 < rule.limit
    → 0 < rule.burst_limit
    → Reason rule c (decide rule now c).0
    → (decide rule now c).0.reset_time ≤ later
    → let result = (decide rule now c).0 in
      let again = (check_at rule later c).0 in
      (result.limit_rule ≡ general rule.name → again.allowed ≡ true)
      × (again.limit_rule ≡ general rule.name)
unfolding check_at
again_free rule now later c s p q (inl (name, reset)) l =
    let d = roll_burst rule later (roll_window rule later c) in
    let calm = (rolled_later rule later c).2 (omega (arith, reset)) in
    (λ e. absurd (ground arith), decide_calm rule later d s (omega (arith, calm)))
again_free rule now later c s p q (inr (name, reset, low)) l =
    let d = roll_burst rule later (roll_window rule later c) in
    let (less, empty, calm) = rolled_later rule later c in
    let zero_left = empty (omega (arith, reset)) in
    (
      λ e. decide_free rule later d s (omega (arith, less)) (omega (arith, zero_left)),
      decide_calm rule later d s (omega (arith, less)),
    )

-- For a rule with positive windows, and positive limits below 2 ^ 63, and a bucket whose counts do
-- not pass them: a refusal's RetryAfter is positive and leads to its ResetTime. From that instant
-- on, if nothing else uses the bucket, the request is allowed after a general refusal, and no burst
-- limit refuses it after any.
pub refusal_ends :
    (rule : Rule) (now later : ℕ) (b : ClientBucket)
    → IsSane rule
    → 0 < rule.limit
    → 0 < rule.burst_limit
    → WithinLimits rule b
    → (check_at rule now b).0.allowed ≡ false
    → (check_at rule now b).0.reset_time ≤ later
    → let (result, b') = check_at rule now b in
      let again = (check_at rule later b').0 in
      (now < result.reset_time)
      × (result.retry_after ≡ pos (result.reset_time - now))
      × (result.limit_rule ≡ general rule.name → again.allowed ≡ true)
      × (again.limit_rule ≡ general rule.name)
unfolding check_at
refusal_ends rule now later b s p q w r l =
    let c = roll_burst rule now (roll_window rule now b) in
    let (ahead, burst_ahead, within) = rolled_ahead rule now b s w in
    let (kept, retry, reason) = decide_refused rule now c s within r in
    let (free, calm) = again_free rule now later c s p q reason l in
    let in_future : now < (decide rule now c).0.reset_time = ground arith in
    (in_future, retry ∙ ground arith, rw kept free, rw kept calm)

rolled_at_most :
    (rule : Rule) (now : ℕ) (b : ClientBucket)
    → let c = roll_burst rule now (roll_window rule now b) in
      (c.request_count ≤ b.request_count)
      × (c.burst_count ≤ b.burst_count)
      × (now < b.window_start + rule.window → c.request_count ≡ b.request_count)
unfolding roll_burst roll_window
rolled_at_most rule now b = (ground arith, ground arith, λ h. ground arith)

decide_counts :
    (rule : Rule) (now : ℕ) (c : ClientBucket)
    → IsSane rule
    → c.burst_count < rule.burst_limit
    → c.request_count < rule.limit
    → let d = (decide rule now c).1 in
      (d.request_count ≡ c.request_count + 1) × (d.burst_count ≡ c.burst_count + 1)
unfolding decide
decide_counts rule now c s u v = (ground arith, ground arith)

short_begins :
    (rule : Rule) (now : ℕ) (b : ClientBucket)
    → b.window_start + rule.window ≤ now
    → (check_at rule now b).1.window_start ≡ now
unfolding check_at roll_window roll_burst decide
short_begins rule now b h = ground arith

-- Two rules with positive windows and limits below 2 ^ 63 share a bucket, `long` with a limit of more
-- than one and `short` with a positive one. Within the window of `long`, whose limit the count has
-- reached, but after that of `short`, `long` refuses; a request under `short` makes the window begin
-- at its own instant, and `long` then allows at once, if the burst limits of both leave room.
pub other_rule_reopens :
    (long short : Rule) (now : ℕ) (b : ClientBucket)
    → IsSane long
    → IsSane short
    → 1 < long.limit
    → 0 < short.limit
    → b.burst_count + 1 < long.burst_limit
    → b.burst_count < short.burst_limit
    → long.limit ≤ b.request_count
    → b.request_count < two_63
    → b.window_start + short.window ≤ now
    → now < b.window_start + long.window
    → ((check_at long now b).0.allowed ≡ false)
      × (((check_at short now b).1.window_start ≡ now)
          × ((check_at long now (check_at short now b).1).0.allowed ≡ true))
unfolding check_at
other_rule_reopens long short now b s t p q u v r z w x =
    let first = roll_burst short now (roll_window short now b) in
    let none_left = (rolled_later short now b).1 w in
    let calm = (rolled_at_most short now b).1 in
    let (one, bursts) =
      decide_counts short now first t (omega (arith, calm)) (omega (arith, none_left)) in
    let after = (decide short now first).1 in
    let (fewer, fewer_bursts, _) = rolled_at_most long now after in
    let (_, _, same) = rolled_at_most long now b in
    let held = same x in
    (
      decide_full long now (roll_burst long now (roll_window long now b)) s (omega (arith, held))
          (omega (arith, held)),
      (
        short_begins short now b w,
        decide_free long now (roll_burst long now (roll_window long now after)) s
            (omega (arith, fewer_bursts, bursts, calm)) (omega (arith, fewer, one, none_left)),
      ),
    )

check_totals :
    (rule : Rule) (now : ℕ) (b : ClientBucket)
    → let b' = (check_at rule now b).1 in
      (b'.blocked_requests ≡ b.blocked_requests)
      × (b.total_requests ≡ b.allowed_requests → b'.total_requests ≡ b'.allowed_requests)
unfolding check_at
check_totals rule now b = (ground arith, λ e. ground arith)

-- The checks of a bucket, each with its rule and its instant.
unfoldable pub check_all : List (Rule × ℕ) → ClientBucket → ClientBucket
unfolding check_at
check_all [] b = b
check_all ((rule, now) ∷ checks) b = check_all checks (check_at rule now b).1

-- Whatever the requests and their refusals, each under any rule, the bucket's BlockedRequests stays
-- as it was, and its TotalRequests counts the allowed requests only, if it did so before.
pub refusals_uncounted :
    (checks : List (Rule × ℕ)) (b : ClientBucket)
    → b.total_requests ≡ b.allowed_requests
    → let b' = check_all checks b in
      (b'.blocked_requests ≡ b.blocked_requests) × (b'.total_requests ≡ b'.allowed_requests)
unfolding check_all
refusals_uncounted [] b e = (refl, e)
refusals_uncounted ((rule, now) ∷ checks) b e =
    let (blocked, total) = check_totals rule now b in
    let (blocked', total') = refusals_uncounted checks (check_at rule now b).1 (total e) in
    (blocked' ∙ blocked, total')
