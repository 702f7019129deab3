-- ===== src/MultiAuth/Stats.antt =====
-- The figures of the providers and of the system, with what is counted of each answer.
use advanced_golang_tutorial.Prelude.{
  ℕ, Bool, false, List, [], ◌∷◌, Option, none, some, if◌then◌else◌, add_i64, Text, same_text,
}
use advanced_golang_tutorial.MultiAuth.Selection.{ProviderError, ParallelAuthResult}

pub record ProviderStats : Type 0 where
  pub total_requests : ℕ
  pub success_count : ℕ
  pub error_count : ℕ
  pub total_latency : ℕ
  pub timeout_count : ℕ
  pub last_error : Option ProviderError

pub record AuthMetrics : Type 0 where
  pub total_requests : ℕ
  pub successful_auth : ℕ
  pub failed_auth : ℕ
  pub cache_hits : ℕ
  pub cache_misses : ℕ
  pub parallel_auth : ℕ
  pub provider_stats : Text → Option ProviderStats

abbrev pub no_stats : ProviderStats
no_stats = record {
  total_requests = 0;
  success_count = 0;
  error_count = 0;
  total_latency = 0;
  timeout_count = 0;
  last_error = none;
}

abbrev pub set_stats : Text → ProviderStats → AuthMetrics → AuthMetrics
unfolding same_text
set_stats name s m = record m {
  provider_stats = λ n. if same_text n name then some s else m.provider_stats n;
}

unfoldable pub is_success : ParallelAuthResult → Bool
is_success p = elim p.error [
  | some e ↦ false
  | none ↦ elim p.result [ none ↦ false | some r ↦ r.success ]
]

unfoldable pub count_answer : ParallelAuthResult → ProviderStats → ProviderStats
unfolding is_success
count_answer p s = record {
  total_requests = add_i64 s.total_requests 1;
  success_count = if is_success p then add_i64 s.success_count 1 else s.success_count;
  error_count = elim p.error [ none ↦ s.error_count | some e ↦ add_i64 s.error_count 1 ];
  total_latency = add_i64 s.total_latency p.duration;
  timeout_count = if p.timed_out then add_i64 s.timeout_count 1 else s.timeout_count;
  last_error = elim p.error [ none ↦ s.last_error | some e ↦ some e ];
}

unfoldable pub update_provider_stats : ParallelAuthResult → AuthMetrics → AuthMetrics
unfolding count_answer
update_provider_stats p m =
    set_stats p.provider
      (count_answer p (elim (m.provider_stats p.provider) [ none ↦ no_stats | some s ↦ s ])) m

unfoldable pub collect : List ParallelAuthResult → AuthMetrics → AuthMetrics
unfolding update_provider_stats
collect [] m = m
collect (p ∷ ps) m = collect ps (update_provider_stats p m)

-- A provider's own figures, counted as its call returns, `latency` after it began.
unfoldable pub record_stats : ℕ → Bool → ProviderStats → ProviderStats
record_stats latency failed s = record s {
  total_requests = add_i64 s.total_requests 1;
  total_latency = add_i64 s.total_latency latency;
  error_count = if failed then add_i64 s.error_count 1 else s.error_count;
  success_count = if failed then s.success_count else add_i64 s.success_count 1;
}
