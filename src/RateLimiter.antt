-- ===== src/RateLimiter.antt =====
-- The API rate limiter of
-- 04_concurrent_programming_for_web_processing/03_api_rate_limiter/api_rate_limiter.go.
-- Strings are lists of bytes. An instant is the number of nanoseconds since Go's zero time; two
-- instants of one bucket are less than 292 years apart. Durations of rules are not negative.
-- Buckets are shared through pointers: the map leads from keys to places of a heap. Of the
-- statistics the counters are modelled, and not the tables by client, endpoint and tier.
use advanced_golang_tutorial.Prelude.{
  ℕ, suc, ◌+◌, ◌*◌, Bool, true, false, List, [], ◌∷◌, ◌++◌, Option, none, some, ltb, if◌then◌else◌,
  length, get_elem?, set, add_i64, ℤ, pos, Text, same_text,
}
pub mod Rules
pub mod Bucket
pub mod Clients
mod Tests
use Rules.{Request, Rule, find_applicable_rule}
use Bucket.{ClientBucket, RateLimitResult, no_rule, check_rate_limit}

pub record Stats : Type 0 where
  pub processed_requests : ℕ
  pub worker_allowed : ℕ
  pub worker_blocked : ℕ
  pub allowed_requests : ℕ
  pub blocked_requests : ℕ

pub record Limiter : Type 0 where
  pub rules : List Rule
  pub buckets : Text → Option ℕ
  pub heap : List ClientBucket
  pub bucket_ttl : ℕ
  pub stats : Stats

-- fmt.Sprintf("%s:%s", clientID, apiKey).
unfoldable pub bucket_key : Text → Text → Text
bucket_key client_id api_key = client_id ++ b':' ∷ api_key

abbrev pub update : (Text → Option ℕ) → Text → ℕ → Text → Option ℕ
update m k a j = if same_text k j then some a else m j

unfoldable pub new_bucket : Request → ℕ → ClientBucket
new_bucket r clock = record {
  client_id = r.client_id;
  api_key = r.api_key;
  user_tier = r.user_tier;
  request_count = 0;
  burst_count = 0;
  window_start = clock;
  burst_start = clock;
  last_request = clock;
  total_requests = 0;
  blocked_requests = 0;
  allowed_requests = 0;
}

-- The place of the client's bucket, which is made if there is none.
unfoldable pub get_or_create_bucket : Request → ℕ → Limiter → ℕ × Limiter
unfolding bucket_key new_bucket
get_or_create_bucket r clock l = elim (l.buckets (bucket_key r.client_id r.api_key)) [
  | some a ↦ (a, l)
  | none ↦ (
    length l.heap,
    record l {
      buckets = update l.buckets (bucket_key r.client_id r.api_key) (length l.heap);
      heap = l.heap ++ new_bucket r clock ∷ [];
    },
  )
]

abbrev day : ℕ
day = 86_400_000_000_000

-- The answer where no rule applies.
unfoldable pub unlimited : ℕ → RateLimitResult
unlimited clock = record {
  allowed = true;
  remaining = 9_223_372_036_854_775_807;
  reset_time = clock + day;
  retry_after = pos 0;
  limit_rule = no_rule;
  window_start = clock;
  window_end = clock + day;
  request_count = 0;
  burst_available = 0;
}

count_processed : Stats → Stats
count_processed s = record s { processed_requests = add_i64 s.processed_requests 1 }

count_result : Bool → Stats → Stats
count_result true s = record s {
  worker_allowed = add_i64 s.worker_allowed 1;
  allowed_requests = add_i64 s.allowed_requests 1;
}
count_result false s = record s {
  worker_blocked = add_i64 s.worker_blocked 1;
  blocked_requests = add_i64 s.blocked_requests 1;
}

-- The check of a bucket in its place.
unfoldable pub check_place : Rule → Request → ℕ → ℕ → Limiter → Option (RateLimitResult × Limiter)
unfolding count_result
check_place rule r clock a l = elim (get_elem? l.heap a) [
  | none ↦ none
  | some b ↦
      let (result, b') = check_rate_limit b rule r clock in
      some
        (result, record l { heap = set l.heap a b'; stats = count_result result.allowed l.stats })
]

-- `none` is a nil pointer, which no reachable limiter holds.
unfoldable pub process_rate_limit_check : Request → ℕ → Limiter → Option (RateLimitResult × Limiter)
unfolding count_processed check_place get_or_create_bucket unlimited
process_rate_limit_check r clock l =
    let counted = record l { stats = count_processed l.stats } in
    elim (find_applicable_rule l.rules r) [
      | none ↦ some (
        unlimited clock,
        record counted {
          stats = record (counted.stats) {
            worker_allowed = add_i64 counted.stats.worker_allowed 1;
          };
        },
      )
      | some rule ↦
          let (a, l') = get_or_create_bucket r clock counted in check_place rule r clock a l'
    ]

-- LastRequest.Before(now.Add(-BucketTTL)).
unfoldable pub is_inactive : ℕ → ℕ → ClientBucket → Bool
is_inactive ttl now b = ltb (b.last_request + ttl) now

unfoldable pub keep_active : ℕ → ℕ → List ClientBucket → Option ℕ → Option ℕ
unfolding is_inactive
keep_active ttl now heap none = none
keep_active ttl now heap (some a) = elim (get_elem? heap a) [
  | none ↦ some a
  | some b ↦ if is_inactive ttl now b then none else some a
]

unfoldable pub cleanup_buckets : ℕ → Limiter → Limiter
unfolding keep_active
cleanup_buckets now l = record l {
  buckets = λ k. keep_active l.bucket_ttl now l.heap (l.buckets k);
}
