-- ===== src/RateLimiter/Bucket.antt =====
-- Clients' buckets and checkRateLimit. Counts are int64 patterns. The texts of LimitRule are data.
use advanced_golang_tutorial.Prelude.{
  ℕ, ◌+◌, Bool, true, false, if◌then◌else◌, ltb, leb, ◌==◌, add_i64, sub_i64, le_i64, ℤ, sub_ℕ, pos,
  Text,
}
use advanced_golang_tutorial.RateLimiter.Rules.{Request, Rule}
pub mod Meter
pub mod Window
pub mod Retry
pub mod Expiry

pub record ClientBucket : Type 0 where
  pub client_id : Text
  pub api_key : Text
  pub user_tier : Text
  pub request_count : ℕ
  pub burst_count : ℕ
  pub window_start : ℕ
  pub burst_start : ℕ
  pub last_request : ℕ
  pub total_requests : ℕ
  pub blocked_requests : ℕ
  pub allowed_requests : ℕ

-- The rule that decides: `burst` for the name with the suffix "_burst".
pub data LimitRule : Type 0 where
  no_rule : LimitRule
  burst : Text → LimitRule
  general : Text → LimitRule

pub record RateLimitResult : Type 0 where
  pub allowed : Bool
  pub remaining : ℕ
  pub reset_time : ℕ
  pub retry_after : ℤ
  pub limit_rule : LimitRule
  pub window_start : ℕ
  pub window_end : ℕ
  pub request_count : ℕ
  pub burst_available : ℕ

-- `now.Sub(start) >= window` for a window that is not negative.
unfoldable pub roll_window : Rule → ℕ → ClientBucket → ClientBucket
roll_window rule now b =
    if leb (b.window_start + rule.window) now
    then record b { request_count = 0; window_start = now }
    else b

unfoldable pub roll_burst : Rule → ℕ → ClientBucket → ClientBucket
roll_burst rule now b =
    if leb (b.burst_start + rule.burst_window) now
    then record b { burst_count = 0; burst_start = now }
    else b

refuse_burst : Rule → ℕ → ClientBucket → RateLimitResult
refuse_burst rule now b = record {
  allowed = false;
  remaining = 0;
  reset_time = b.burst_start + rule.burst_window;
  retry_after = sub_ℕ (b.burst_start + rule.burst_window) now;
  limit_rule = burst rule.name;
  window_start = b.burst_start;
  window_end = b.burst_start + rule.burst_window;
  request_count = b.burst_count;
  burst_available = 0;
}

refuse_general : Rule → ℕ → ClientBucket → RateLimitResult
refuse_general rule now b = record {
  allowed = false;
  remaining = 0;
  reset_time = b.window_start + rule.window;
  retry_after = sub_ℕ (b.window_start + rule.window) now;
  limit_rule = general rule.name;
  window_start = b.window_start;
  window_end = b.window_start + rule.window;
  request_count = b.request_count;
  burst_available = sub_i64 rule.burst_limit b.burst_count;
}

count_allowed : ℕ → ClientBucket → ClientBucket
count_allowed now b = record b {
  request_count = add_i64 b.request_count 1;
  burst_count = add_i64 b.burst_count 1;
  last_request = now;
  total_requests = add_i64 b.total_requests 1;
  allowed_requests = add_i64 b.allowed_requests 1;
}

allow : Rule → ClientBucket → RateLimitResult
allow rule b = record {
  allowed = true;
  remaining = sub_i64 rule.limit b.request_count;
  reset_time = b.window_start + rule.window;
  retry_after = pos 0;
  limit_rule = general rule.name;
  window_start = b.window_start;
  window_end = b.window_start + rule.window;
  request_count = b.request_count;
  burst_available = sub_i64 rule.burst_limit b.burst_count;
}

decide : Rule → ℕ → ClientBucket → RateLimitResult × ClientBucket
unfolding refuse_burst refuse_general count_allowed allow
decide rule now b =
    if le_i64 rule.burst_limit b.burst_count
    then (refuse_burst rule now b, b)
    else if le_i64 rule.limit b.request_count
    then (refuse_general rule now b, b)
    else (allow rule (count_allowed now b), count_allowed now b)

-- The check at an instant.
unfoldable pub check_at : Rule → ℕ → ClientBucket → RateLimitResult × ClientBucket
unfolding roll_window roll_burst decide
check_at rule now b = decide rule now (roll_burst rule now (roll_window rule now b))

-- The instant of the request, or the clock's where the request has none.
unfoldable pub check_rate_limit : ClientBucket → Rule → Request → ℕ → RateLimitResult × ClientBucket
unfolding check_at
check_rate_limit b rule r clock =
    check_at rule (if r.request_time == 0 then clock else r.request_time) b
