-- ===== src/Breaker/New.antt =====
-- NewCircuitBreaker and defaultReadyToTrip: the settings with their defaults put in.
use advanced_golang_tutorial.Prelude.{
  ℕ, ◌*◌, Bool, true, false, ◌&&◌, [], Option, none, some, leb, ◌==◌, if◌then◌else◌, ℤ, pos, negsuc,
  Float64,
}
use advanced_golang_tutorial.Breaker.{
  closed, Counts, zero_counts, Error, Reply, Config, Breaker, to_new_generation,
}
pub mod Usable

abbrev second : ℕ
second = 1_000_000_000

-- cmp.Or: the first value unless it is zero.
abbrev cmp_or : ℕ → ℕ → ℕ
cmp_or a b = if a == 0 then b else a

-- A duration, or its default where it is not positive.
pub positive_or : ℤ → ℕ → ℕ
positive_or (pos d) e = cmp_or d e
positive_or (negsuc d) e = e

pub default_is_successful {ℓ} : {A : Type ℓ} → Option A → Bool
default_is_successful none = true
default_is_successful (some e) = false

module _ (f : Float64) where
  open f use {Carrier, of_ℕ, divide, le}

  pub record Settings (V E : Type 0) : Type 0 where
    pub max_requests : ℕ
    pub interval : ℤ
    pub timeout : ℤ
    pub ready_to_trip : Option (Counts → Bool)
    pub observed : Bool
    pub is_successful : Option (Option (Error E) → Bool)
    pub fallback : Option (Error E → Reply V E)
    pub slow_call_threshold : ℤ
    pub failure_threshold : Carrier
    pub min_request_threshold : ℕ

  pub default_ready_to_trip : ℕ → Carrier → Counts → Bool
  default_ready_to_trip min_request_threshold failure_threshold c =
      leb min_request_threshold c.requests
      && le failure_threshold (divide (of_ℕ c.total_failures) (of_ℕ c.requests))

  pub effective_threshold : Carrier → Carrier
  effective_threshold t = if le t (of_ℕ 0) then divide (of_ℕ 1) (of_ℕ 2) else t

  module _ {V E : Type 0} where
    pub config_of : Settings V E → Config V E
    config_of st = record {
      max_requests = cmp_or st.max_requests 1;
      interval = positive_or st.interval (60 * second);
      timeout = positive_or st.timeout (60 * second);
      ready_to_trip = elim st.ready_to_trip [
        | none ↦
            default_ready_to_trip (cmp_or st.min_request_threshold 10)
              (effective_threshold st.failure_threshold)
        | some r ↦ r
      ];
      observed = st.observed;
      is_successful = elim st.is_successful [ none ↦ default_is_successful | some p ↦ p ];
      fallback = st.fallback;
      slow_call_threshold = positive_or st.slow_call_threshold (5 * second);
    }

    pub new_circuit_breaker : Settings V E → ℕ → Breaker V E
    unfolding config_of
    new_circuit_breaker st now = to_new_generation now (record {
      config = config_of st;
      state = closed;
      generation = 0;
      counts = zero_counts;
      expiry = 0;
      changes = [];
    })
