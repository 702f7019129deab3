-- ===== src/RateLimiter/Tests.antt =====
-- Runs of a bucket, and the theorems at concrete inputs.
use mathlib.Core.List.{Perm, mem-cons_self}
use mathlib.Core.List.Perm
use advanced_golang_tutorial.Prelude.{
  ℕ, ◌≤◌, ◌≡◌, refl, true, false, List, [], ◌∷◌, none, some, arith, All, ◌≤ℤ◌, leb_ℤ, if◌then◌else◌,
  Bool-cases, inl, inr, pos, count_if, ◌⊎◌, contains_byte, split_at, has_prefix, has_suffix,
  same_text, text_mem,
}
use advanced_golang_tutorial.RateLimiter.Rules.{
  Request, Rule, rule_matches, endpoint_matches, find_applicable_rule, add_rules,
}
use advanced_golang_tutorial.RateLimiter.Rules.Selection.{
  IsDescending, SortsByPriority, find_applicable_rule-highest,
}
use advanced_golang_tutorial.RateLimiter.Bucket.{ClientBucket, check_at}
use advanced_golang_tutorial.RateLimiter.Bucket.Meter.{lies_in}
use advanced_golang_tutorial.RateLimiter.Bucket.Window.{IsSane, run_checks, any_interval_bounded}
use advanced_golang_tutorial.RateLimiter.Bucket.Retry.{
  refusal_ends, other_rule_reopens, refusals_uncounted, check_all,
}
use advanced_golang_tutorial.RateLimiter.Clients.{cleanup_forgets_nothing}
use advanced_golang_tutorial.RateLimiter.{
  Limiter, new_bucket, get_or_create_bucket, cleanup_buckets,
}
mod Sorting
use Sorting.{sort, insert, sort-SortsByPriority}

abbrev free_rule : Rule
free_rule = record {
  name = b'f' ∷ [];
  limit = 3;
  window = 100;
  burst_limit = 2;
  burst_window = 10;
  user_tiers = (b'f' ∷ []) ∷ [];
  endpoints = [];
  methods = [];
  priority = pos 100;
}

-- Matches every endpoint from "/u" on to "s".
abbrev endpoint_rule : Rule
endpoint_rule = record free_rule {
  name = b'u' ∷ [];
  user_tiers = [];
  endpoints = (b'/' ∷ b'u' ∷ b'*' ∷ b's' ∷ []) ∷ [];
  priority = pos 150;
}

abbrev sample_request : Request
sample_request = record {
  client_id = b'a' ∷ [];
  api_key = b'k' ∷ [];
  endpoint = b'/' ∷ b'u' ∷ b'1' ∷ b's' ∷ [];
  method = [];
  user_tier = b'f' ∷ [];
  request_time = 0;
}

wildcards :
    (endpoint_matches (b'/' ∷ b'*' ∷ b's' ∷ []) (b'/' ∷ b'u' ∷ b's' ∷ []) ≡ true)
    × (endpoint_matches (b'/' ∷ b'*' ∷ b's' ∷ []) (b'/' ∷ b'u' ∷ []) ≡ false)
    × (endpoint_matches (b'*' ∷ b'*' ∷ []) (b'u' ∷ []) ≡ false)
    × (endpoint_matches (b'*' ∷ b'*' ∷ []) (b'*' ∷ b'*' ∷ []) ≡ true)
unfolding endpoint_matches contains_byte split_at has_prefix has_suffix same_text
wildcards = (refl, refl, refl, refl)

chosen_rule :
    find_applicable_rule (add_rules sort (free_rule ∷ endpoint_rule ∷ []) []) sample_request
    ≡ some endpoint_rule
unfolding sort add_rules find_applicable_rule rule_matches endpoint_matches contains_byte split_at
    has_prefix has_suffix
chosen_rule = refl

find_applicable_rule-highest_example : free_rule.priority ≤ℤ endpoint_rule.priority
unfolding rule_matches text_mem
find_applicable_rule-highest_example =
    ((find_applicable_rule-highest sort sort-SortsByPriority (free_rule ∷ endpoint_rule ∷ [])
          sample_request).0
        endpoint_rule chosen_rule).2
      free_rule mem-cons_self refl

abbrev empty_bucket : ClientBucket
empty_bucket = new_bucket sample_request 1000

free_rule-IsSane : IsSane free_rule
free_rule-IsSane = record {
  limit_small = omega arith;
  burst_small = omega arith;
  window_pos = omega arith;
  burst_pos = omega arith;
}

abbrev instants : List ℕ
instants = 1000 ∷ 1001 ∷ 1002 ∷ 1010 ∷ 1011 ∷ 1020 ∷ 1099 ∷ 1100 ∷ 1101 ∷ 1102 ∷ []

-- Bursts of two, three to a window, and two windows meet.
allowed_instants :
    (run_checks free_rule instants [] empty_bucket).0 ≡ 1101 ∷ 1100 ∷ 1010 ∷ 1001 ∷ 1000 ∷ []
unfolding run_checks check_at new_bucket
allowed_instants = refl

any_interval_bounded_example :
    let log = (run_checks free_rule instants [] empty_bucket).0 in
    (count_if (lies_in 1005 100) log ≤ 6) × (count_if (lies_in 1095 10) log ≤ 4)
unfolding new_bucket
any_interval_bounded_example =
    any_interval_bounded free_rule 1005 1095 1000 instants empty_bucket free_rule-IsSane refl refl
      (omega arith) (omega arith) (ground arith)

abbrev full_bucket : ClientBucket
full_bucket = record empty_bucket {
  request_count = 3;
  window_start = 1000;
  burst_start = 1000;
  burst_count = 0;
}

refusal_ends_example :
    let (result, b') = check_at free_rule 1009 full_bucket in
    let again = (check_at free_rule 1100 b').0 in
    (1009 ≤ result.reset_time) × (again.allowed ≡ true)
unfolding new_bucket check_at
refusal_ends_example =
    let holds =
      refusal_ends free_rule 1009 1100 full_bucket free_rule-IsSane (omega arith) (omega arith)
        (omega arith, omega arith) refl (omega arith) in
    (omega (arith, holds.0), holds.2 refl)

abbrev short_rule : Rule
short_rule = record free_rule { window = 20 }

short_rule-IsSane : IsSane short_rule
short_rule-IsSane = record {
  limit_small = omega arith;
  burst_small = omega arith;
  window_pos = omega arith;
  burst_pos = omega arith;
}

other_rule_reopens_example :
    ((check_at free_rule 1050 full_bucket).0.allowed ≡ false)
    × (((check_at short_rule 1050 full_bucket).1.window_start ≡ 1050)
        × ((check_at free_rule 1050 (check_at short_rule 1050 full_bucket).1).0.allowed ≡ true))
unfolding new_bucket
other_rule_reopens_example =
    other_rule_reopens free_rule short_rule 1050 full_bucket free_rule-IsSane short_rule-IsSane
      (omega arith) (omega arith) (omega arith) (omega arith) (omega arith) (omega arith)
      (omega arith) (omega arith)

-- Under two rules by turns, the last one refused.
abbrev mixed : List (Rule × ℕ)
mixed = (free_rule, 1000) ∷ (short_rule, 1001) ∷ (free_rule, 1001) ∷ []

refusals_uncounted_example :
    let b' = check_all mixed empty_bucket in
    (b'.blocked_requests ≡ 0) × (b'.total_requests ≡ b'.allowed_requests)
unfolding new_bucket
refusals_uncounted_example = refusals_uncounted mixed empty_bucket refl

abbrev empty_limiter : Limiter
empty_limiter = record {
  rules = free_rule ∷ [];
  buckets = λ k. none;
  heap = [];
  bucket_ttl = 500;
  stats = record {
    processed_requests = 0;
    worker_allowed = 0;
    worker_blocked = 0;
    allowed_requests = 0;
    blocked_requests = 0;
  };
}

abbrev one_client : Limiter
one_client = record empty_limiter { buckets = λ k. some 0; heap = full_bucket ∷ [] }

cleanup_forgets_nothing_example :
    (((cleanup_buckets 1600 one_client).buckets [] ≡ none)
      × ((check_at free_rule 1700 full_bucket).0
          ≡ (check_at free_rule 1700 (new_bucket sample_request 1700)).0))
    ⊎ ((cleanup_buckets 1600 one_client).buckets [] ≡ some 0)
unfolding new_bucket
cleanup_forgets_nothing_example =
    cleanup_forgets_nothing one_client [] 0 1600 1700 full_bucket free_rule sample_request refl refl
      (omega arith) (omega arith) (omega arith) (omega arith) (omega arith)
