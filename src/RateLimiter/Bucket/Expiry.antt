-- ===== src/RateLimiter/Bucket/Expiry.antt =====
-- A bucket whose windows are over, against one that has just been made.
use advanced_golang_tutorial.Prelude.{ℕ, ◌+◌, ◌≤◌, ◌≡◌, arith}
use advanced_golang_tutorial.RateLimiter.Rules.{Rule}
use advanced_golang_tutorial.RateLimiter.Bucket.{
  ClientBucket, roll_window, roll_burst, decide, check_at,
}

-- The counts and the beginnings of the windows.
abbrev pub Looks : ℕ → ClientBucket → Type 0
Looks now c =
    (c.request_count ≡ 0) × (c.burst_count ≡ 0) × (c.window_start ≡ now) × (c.burst_start ≡ now)

rolled-new :
    (rule : Rule) (now : ℕ) (b : ClientBucket)
    → Looks now b
    → Looks now (roll_burst rule now (roll_window rule now b))
unfolding roll_window roll_burst
rolled-new rule now b h = ground arith

rolled-expired :
    (rule : Rule) (now : ℕ) (b : ClientBucket)
    → b.window_start + rule.window ≤ now
    → b.burst_start + rule.burst_window ≤ now
    → Looks now (roll_burst rule now (roll_window rule now b))
unfolding roll_window roll_burst
rolled-expired rule now b h k = ground arith

decide-Looks :
    (rule : Rule) (now : ℕ) (c d : ClientBucket)
    → Looks now c
    → Looks now d
    → (decide rule now c).0 ≡ (decide rule now d).0
unfolding decide
decide-Looks rule now c d h k = ground arith

pub check_at-expired :
    (rule : Rule) (now : ℕ) (old new : ClientBucket)
    → old.window_start + rule.window ≤ now
    → old.burst_start + rule.burst_window ≤ now
    → Looks now new
    → (check_at rule now old).0 ≡ (check_at rule now new).0
unfolding check_at
check_at-expired rule now old new h k n =
    decide-Looks rule now (roll_burst rule now (roll_window rule now old))
      (roll_burst rule now (roll_window rule now new)) (rolled-expired rule now old h k)
      (rolled-new rule now new n)
