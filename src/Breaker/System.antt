-- ===== src/Breaker/System.antt =====
-- Breakers shared by goroutines: a request that is admitted holds the generation that it was given
-- until it reports. Each step is one critical section of the breaker's mutex.
use advanced_golang_tutorial.Prelude.{
  ℕ, ◌+◌, ◌≤◌, ◌≡◌, Bool, List, [], ◌∷◌, Option, none, some, get_elem?, erase_idx, All, count, u64,
}
use advanced_golang_tutorial.Breaker.{
  half_open, Breaker, current_state, before_request, after_request, reset,
}

-- `call` and `query` carry the instant; `finish` the place of the request among those that run,
-- its success, its duration and the instant.
pub data Event : Type 0 where
  call : ℕ → Event
  finish : ℕ → Bool → ℕ → ℕ → Event
  query : ℕ → Event
  resets : ℕ → Event

pub record System (V E : Type 0) : Type 0 where
  pub breaker : Breaker V E
  pub in_flight : List ℕ

-- An admitted request joins those that run.
unfoldable pub joined {ℓ} : {A : Type ℓ} → ℕ → Option A → List ℕ → List ℕ
joined g none gs = g ∷ gs
joined g (some e) gs = gs

module _ {V E : Type 0} where
  unfoldable pub step : System V E → Event → System V E
  unfolding joined
  step s (call now) =
      let (g, refused, b) = before_request now s.breaker in
      record { breaker = b; in_flight = joined g refused s.in_flight }
  step s (finish i success duration now) = elim (get_elem? s.in_flight i) [
    | none ↦ s
    | some g ↦ record {
      breaker = after_request g success duration now s.breaker;
      in_flight = erase_idx s.in_flight i;
    }
  ]
  step s (query now) = record s { breaker = current_state now s.breaker }
  step s (resets now) = record s { breaker = reset now s.breaker }

  unfoldable pub run : System V E → List Event → System V E
  run s [] = s
  run s (e ∷ es) = run (step s e) es

  -- What the breaker owes to the requests that run.
  pub record Accounts (b : Breaker V E) (gs : List ℕ) : Type 0 where
    pub known : All (λ g. g ≤ b.generation) gs
    pub conserved :
        b.counts.requests
        ≡ u64 (b.counts.total_successes + b.counts.total_failures + count b.generation gs)
    pub probing :
        b.state ≡ half_open
        → (count b.generation gs ≡ b.counts.requests)
          × (b.counts.requests ≤ b.config.max_requests)
          × (b.counts.total_successes ≡ 0)
          × (b.counts.total_failures ≡ 0)
