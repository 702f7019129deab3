-- ===== src/AdvancedBreaker/System.antt =====
-- Breakers shared by goroutines. A request that is admitted runs, then reports in one critical
-- section, and then leaves the count of active requests in a step of its own.
use advanced_golang_tutorial.Prelude.{
  ℕ, zero, suc, ◌+◌, ◌≤◌, ◌<◌, ◌≡◌, Bool, true, false, List, [], ◌∷◌, Option, none, some, u64,
  two_63, Float64,
}
use advanced_golang_tutorial.AdvancedBreaker.{
  Error, Breaker, update_state, before_request, after_request, reset,
}
use advanced_golang_tutorial.AdvancedBreaker.Execute.{leave}

pub data Event : Type 0 where
  call : ℕ → Event
  report : Bool → ℕ → ℕ → Event
  leaves : Event
  query : ℕ → Event
  resets : ℕ → Event

abbrev pub is_reset : Event → Bool
is_reset (resets now) = true
is_reset _ = false

module _ (f : Float64) where
  pub record System : Type 0 where
    pub breaker : Breaker f
    pub running : ℕ
    pub leaving : ℕ

  unfoldable pub entered : Option Error → ℕ → ℕ
  entered none n = suc n
  entered (some e) n = n

  unfoldable pub report_step : ℕ → Bool → ℕ → ℕ → System → System
  report_step zero success duration now s = s
  report_step (suc n) success duration now s = record {
    breaker = after_request f success duration now s.breaker;
    running = n;
    leaving = suc s.leaving;
  }

  unfoldable pub leave_step : ℕ → System → System
  leave_step zero s = s
  leave_step (suc n) s = record s { breaker = leave f s.breaker; leaving = n }

  unfoldable pub step : System → Event → System
  unfolding entered report_step leave_step
  step s (call now) =
      let (refused, b) = before_request f now s.breaker in
      record s { breaker = b; running = entered refused s.running }
  step s (report success duration now) = report_step s.running success duration now s
  step s leaves = leave_step s.leaving s
  step s (query now) = record s { breaker = update_state f now s.breaker }
  step s (resets now) = record s { breaker = reset f now s.breaker }

  unfoldable pub run : System → List Event → System
  run s [] = s
  run s (e ∷ es) = run (step s e) es

  -- The count of active requests is that of the requests that run or leave, within the limit.
  pub record IsBounded (s : System) : Type 0 where
    pub counted : s.breaker.active_requests ≡ s.running + s.leaving
    pub limited : s.running + s.leaving ≤ s.breaker.config.max_concurrent_requests
    pub small : s.breaker.config.max_concurrent_requests < two_63

  -- Every request that was admitted has been reported or runs.
  abbrev pub IsConserved : System → Type 0
  IsConserved s =
      s.breaker.metrics.total_requests
      ≡ u64 (s.breaker.metrics.successful_requests + s.breaker.metrics.failed_requests + s.running)
