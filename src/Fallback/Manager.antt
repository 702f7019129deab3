-- ===== src/Fallback/Manager.antt =====
-- The fallback manager, its parts, and what is counted of a result and of a change of the mode.
use advanced_golang_tutorial.Prelude.{
  ℕ, ◌+◌, Bool, true, false, Option, if◌then◌else◌, ◌==◌, u64, Text, Float64, ◌⊎◌,
}
use advanced_golang_tutorial.Fallback.Sliding.{
  FallbackMode, normal_mode, fallback, transition_mode, Window, get_effective_window_size, failures,
}

pub record FallbackManagerConfig (F : Float64) : Type 0 where
  pub error_rate_threshold : F.Carrier
  pub recovery_threshold : F.Carrier
  pub minimum_request_count : ℕ
  pub sliding_window_size : ℕ
  pub evaluation_interval : ℕ
  pub transition_duration : ℕ
  pub max_concurrent_workers : ℕ

pub record CacheEntry (D : Type 0) : Type 0 where
  pub data_of : D
  pub timestamp : ℕ
  pub ttl : ℕ

pub record Counters : Type 0 where
  pub total_requests : ℕ
  pub normal_mode_requests : ℕ
  pub fallback_mode_requests : ℕ
  pub successful_requests : ℕ
  pub failed_requests : ℕ
  pub mode_change_count : ℕ
  pub fallback_activations : ℕ
  pub cache_hits : ℕ
  pub cache_misses : ℕ

pub record FallbackManager (F : Float64) (D : Type 0) : Type 0 where
  pub config : FallbackManagerConfig F
  pub cache : Text → Option (CacheEntry D)
  pub counters : Counters
  pub current_mode : FallbackMode
  pub last_mode_change : ℕ
  pub window : Window
  pub active_workers : ℕ
  pub is_running : Bool
  pub is_cancelled : Bool

pub data Error : Type 0 where
  too_many_workers : Error
  manager_stopped : Error
  already_running : Error
  not_running : Error
  service_failed : Error
  fallback_failed : Error

-- What a call meets: the service's answer, the provider's, and if rand.Float64() < 0.1.
pub record Answers (D : Type 0) : Type 0 where
  pub service : Option D
  pub can_provide : Bool
  pub provided : Option D
  pub tries_service : Bool

-- The data or an error, the success that is recorded, and the manager.
abbrev pub Outcome : Float64 → Type 0 → Type 0
Outcome F D = (Error ⊎ D) × (Bool × FallbackManager F D)

abbrev pub five_minutes : ℕ
five_minutes = 300000000000

abbrev pub zero_counters : Counters
zero_counters = record {
  total_requests = 0;
  normal_mode_requests = 0;
  fallback_mode_requests = 0;
  successful_requests = 0;
  failed_requests = 0;
  mode_change_count = 0;
  fallback_activations = 0;
  cache_hits = 0;
  cache_misses = 0;
}

unfoldable pub count_result : Bool → Counters → Counters
count_result success c =
    if success
    then record c { successful_requests = u64 (c.successful_requests + 1) }
    else record c { failed_requests = u64 (c.failed_requests + 1) }

unfoldable pub calculate_current_error_rate : (F : Float64) → Window → F.Carrier
unfolding get_effective_window_size failures
calculate_current_error_rate F w =
    let size = get_effective_window_size w in
    if size == 0 then F.of_ℕ 0 else F.divide (F.of_ℕ (failures w)) (F.of_ℕ size)

unfoldable pub same_mode : FallbackMode → FallbackMode → Bool
same_mode normal_mode normal_mode = true
same_mode fallback fallback = true
same_mode transition_mode transition_mode = true
same_mode a b = false

unfoldable pub count_change : FallbackMode → Counters → Counters
count_change fallback c = record c {
  mode_change_count = u64 (c.mode_change_count + 1);
  fallback_activations = u64 (c.fallback_activations + 1);
}
count_change mode c = record c { mode_change_count = u64 (c.mode_change_count + 1) }
