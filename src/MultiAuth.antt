-- ===== src/MultiAuth.antt =====
-- The authentication system of
-- 04_concurrent_programming_for_web_processing/ans_02/multi_auth_system.go: several providers are
-- asked in parallel and the best answer is kept in a cache. What a provider answers and how long it
-- takes are parameters of a call, and so is the order in which the answers arrive.
use advanced_golang_tutorial.Prelude.{
  ℕ, Bool, true, false, List, [], ◌∷◌, Option, none, some, if◌then◌else◌, ◌==◌, ◌&&◌, length, map,
  add_i64, Text, same_text, text_mem, ◌⊎◌, inl, inr,
}
pub mod Selection
pub mod Cache
pub mod Stats
pub mod Jwt
pub mod ApiKey
pub mod Runs
pub mod Places
pub mod Best
pub mod Entries
pub mod Steps
pub mod Oldest
pub mod Eviction
pub mod Size
pub mod Limit
mod Tests
pub mod Success
pub mod Expiry
use Selection.{
  AuthConfig, AuthResult, ProviderError, provider_not_found, ParallelAuthResult, select_best_result,
}
use Stats.{AuthMetrics, no_stats, set_stats, collect, update_provider_stats}
use Cache.{
  AuthCache, Lookup, missed, expired, hit, look_up, touch_entry, evict_cache_entry, cache_result,
}

pub record MultiAuthSystem : Type 0 where
  pub providers : List Text
  pub cache : AuthCache
  pub config : AuthConfig
  pub metrics : AuthMetrics

pub data Error : Type 0 where
  no_enabled_providers : Error
  all_providers_failed : Error

-- What a provider returns, how long it takes, and if the deadline has passed by then.
pub record Answer : Type 0 where
  pub result : Option AuthResult
  pub error : Option ProviderError
  pub duration : ℕ
  pub deadline_exceeded : Bool

unfoldable pub new_multi_auth_system : AuthConfig → MultiAuthSystem
new_multi_auth_system cfg = record {
  providers = [];
  cache = record { cache = []; max_size = cfg.max_cache_size; evictions = 0 };
  config = cfg;
  metrics = record {
    total_requests = 0;
    successful_auth = 0;
    failed_auth = 0;
    cache_hits = 0;
    cache_misses = 0;
    parallel_auth = 0;
    provider_stats = λ name. none;
  };
}

unfoldable pub register_provider : Text → MultiAuthSystem → MultiAuthSystem
unfolding text_mem
register_provider name mas = record mas {
  providers = if text_mem name mas.providers then mas.providers else name ∷ mas.providers;
  metrics = set_stats name no_stats mas.metrics;
}

unfoldable pub enabled_of : List Text → List Text → List Text
unfolding text_mem
enabled_of [] registered = []
enabled_of (name ∷ names) registered =
    let rest = enabled_of names registered in if text_mem name registered then name ∷ rest else rest

unfoldable pub get_enabled_providers : MultiAuthSystem → List Text
unfolding enabled_of
get_enabled_providers mas = enabled_of mas.config.enabled_providers mas.providers

-- The answer of a provider, which bears its name and its time.
unfoldable pub authenticate_with_provider : MultiAuthSystem → Text → Answer → ParallelAuthResult
unfolding text_mem
authenticate_with_provider mas name a =
    if text_mem name mas.providers
    then record {
      provider = name;
      result = elim a.result [
        | none ↦ none
        | some r ↦ some (record r { provider = name; response_time = a.duration })
      ];
      error = a.error;
      duration = a.duration;
      timed_out = elim a.error [ none ↦ false | some e ↦ a.deadline_exceeded ];
    }
    else record {
      provider = name;
      result = none;
      error = some provider_not_found;
      duration = a.duration;
      timed_out = false;
    }

-- `arrivals` are the enabled providers in the order in which their answers arrive.
unfoldable pub execute_parallel_auth :
    List Text
    → (Text → Answer)
    → MultiAuthSystem
    → Option (List ParallelAuthResult) × MultiAuthSystem
unfolding get_enabled_providers authenticate_with_provider collect
execute_parallel_auth arrivals answers mas =
    if length (get_enabled_providers mas) == 0
    then (none, mas)
    else let results = map (λ name. authenticate_with_provider mas name (answers name)) arrivals in
      (some results, record mas { metrics = collect results mas.metrics })

abbrev pub fails : MultiAuthSystem → MultiAuthSystem
fails mas = record mas {
  metrics = record mas.metrics { failed_auth = add_i64 mas.metrics.failed_auth 1 };
}

abbrev pub count_hit : MultiAuthSystem → MultiAuthSystem
count_hit mas = record mas {
  metrics = record mas.metrics { cache_hits = add_i64 mas.metrics.cache_hits 1 };
}

abbrev pub count_miss : MultiAuthSystem → MultiAuthSystem
count_miss mas = record mas {
  metrics = record mas.metrics { cache_misses = add_i64 mas.metrics.cache_misses 1 };
}

abbrev pub count_request : MultiAuthSystem → MultiAuthSystem
count_request mas = record mas {
  metrics = record mas.metrics {
    total_requests = add_i64 mas.metrics.total_requests 1;
    parallel_auth = add_i64 mas.metrics.parallel_auth 1;
  };
}

-- The choice among the answers and what AuthenticateParallel does with it.
unfoldable pub finish_authentication :
    Text
    → List ParallelAuthResult
    → ℕ
    → ℕ
    → List Text
    → MultiAuthSystem
    → (Error ⊎ AuthResult) × MultiAuthSystem
unfolding select_best_result get_enabled_providers cache_result
finish_authentication k results made now visits mas =
    elim (select_best_result mas.config (length (get_enabled_providers mas)) results) [
      | none ↦ (inl all_providers_failed, fails mas)
      | some r ↦ (
        inr r,
        record mas {
          cache = cache_result mas.config k r made now visits mas.cache;
          metrics = record mas.metrics { successful_auth = add_i64 mas.metrics.successful_auth 1 };
        },
      )
    ]

-- checkCache up to its eviction or its touch, with the counts of a miss and of a hit.
unfoldable pub check_cache : Text → ℕ → MultiAuthSystem → Lookup × MultiAuthSystem
unfolding look_up
check_cache k now mas = elim (look_up k now mas.cache) [
  | missed ↦ (missed, count_miss mas)
  | expired ↦ (expired, mas)
  | hit r ↦ (hit r, count_hit mas)
]

unfoldable pub touch_cached : Text → ℕ → MultiAuthSystem → MultiAuthSystem
unfolding touch_entry
touch_cached k now mas = record mas { cache = touch_entry k now mas.cache }

unfoldable pub evict_expired : Text → MultiAuthSystem → MultiAuthSystem
unfolding evict_cache_entry
evict_expired k mas = count_miss (record mas { cache = evict_cache_entry k mas.cache })

unfoldable pub ask_providers :
    Text
    → List Text
    → (Text → Answer)
    → ℕ
    → ℕ
    → List Text
    → MultiAuthSystem
    → (Error ⊎ AuthResult) × MultiAuthSystem
unfolding execute_parallel_auth finish_authentication
ask_providers k arrivals answers made now visits mas =
    let (results, asked) = execute_parallel_auth arrivals answers mas in
    elim results [
      | none ↦ (inl no_enabled_providers, fails asked)
      | some rs ↦ finish_authentication k rs made now visits asked
    ]

-- What a call does after it has looked at the cache, at the instant `start`.
unfoldable pub continue_with :
    Text
    → ℕ
    → List Text
    → (Text → Answer)
    → ℕ
    → ℕ
    → List Text
    → Lookup
    → MultiAuthSystem
    → (Error ⊎ AuthResult) × MultiAuthSystem
unfolding evict_expired touch_cached ask_providers
continue_with k start arrivals answers made now visits missed mas =
    ask_providers k arrivals answers made now visits mas
continue_with k start arrivals answers made now visits expired mas =
    ask_providers k arrivals answers made now visits (evict_expired k mas)
continue_with k start arrivals answers made now visits (hit r) mas =
    (inr r, touch_cached k start mas)

-- AuthenticateParallel as a whole, for a token with the hash `k` that is looked up at the instant
-- `start`. Runs take it apart where other goroutines come in between.
unfoldable pub authenticate_parallel :
    Text
    → ℕ
    → List Text
    → (Text → Answer)
    → ℕ
    → ℕ
    → List Text
    → MultiAuthSystem
    → (Error ⊎ AuthResult) × MultiAuthSystem
unfolding check_cache continue_with
authenticate_parallel k start arrivals answers made now visits mas =
    let (found, looked) = check_cache k start mas in
    let (outcome, after) = continue_with k start arrivals answers made now visits found looked in
    (outcome, count_request after)
