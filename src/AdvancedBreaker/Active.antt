-- ===== src/AdvancedBreaker/Active.antt =====
-- The counts that the breaker keeps of the requests that run, through every interleaving.
use advanced_golang_tutorial.Prelude.{
  ℕ, zero, suc, ◌+◌, ◌≤◌, ◌<◌, ◌≡◌, ◌≢◌, refl, ap, ◌⊎◌, Bool, true, false, List, [], ◌∷◌, none,
  some, arith, u64, two_63, All, Float64, Option-cases, inl, inr,
}
use advanced_golang_tutorial.AdvancedBreaker.{
  State, closed, opened, half_open, Error, Breaker, transition_to, update_state, refusal,
  count_request, before_request, evaluate_state_transition, noted, after_request, reset,
}
use advanced_golang_tutorial.AdvancedBreaker.Counters.{update_metrics}
use advanced_golang_tutorial.AdvancedBreaker.Execute.{leave}
use advanced_golang_tutorial.AdvancedBreaker.System.{
  Event, call, report, leaves, query, resets, is_reset, System, report_step, leave_step, step, run,
  IsBounded, IsConserved,
}

module _ (f : Float64) where
  -- What a change of state leaves alone.
  abbrev Keeps : Breaker f → Breaker f → Type 0
  Keeps b b' =
      (b'.active_requests ≡ b.active_requests)
      × (b'.config ≡ b.config)
      × (b'.metrics.total_requests ≡ b.metrics.total_requests)
      × (b'.metrics.successful_requests ≡ b.metrics.successful_requests)
      × (b'.metrics.failed_requests ≡ b.metrics.failed_requests)

  transition_to-Keeps : (t : State) (now : ℕ) (b : Breaker f) → Keeps b (transition_to f t now b)
  unfolding transition_to
  transition_to-Keeps t now b = ground arith

  update_state-Keeps : (now : ℕ) (b : Breaker f) → Keeps b (update_state f now b)
  unfolding update_state
  update_state-Keeps now b = ground (arith, transition_to-Keeps half_open now b)

  evaluate-Keeps :
      (success : Bool) (now : ℕ) (b : Breaker f)
      → Keeps b (evaluate_state_transition f success now b)
  unfolding evaluate_state_transition
  evaluate-Keeps success now b =
      ground (arith, transition_to-Keeps opened now b, transition_to-Keeps closed now b)

  after_request-counts :
      (success : Bool) (duration now : ℕ) (b : Breaker f)
      → let b' = after_request f success duration now b in
        (b'.active_requests ≡ b.active_requests)
        × (b'.config ≡ b.config)
        × (b'.metrics.total_requests ≡ b.metrics.total_requests)
        × (u64 (b'.metrics.successful_requests + b'.metrics.failed_requests)
            ≡ u64 (b.metrics.successful_requests + b.metrics.failed_requests + 1))
  unfolding after_request update_metrics
  after_request-counts true duration now b =
      ground (arith, evaluate-Keeps true now (noted f true duration now b))
  after_request-counts false duration now b =
      ground (arith, evaluate-Keeps false now (noted f false duration now b))

  before_request_cases :
      (now : ℕ) (b : Breaker f)
      → let u = update_state f now b in
        ((x : Error) × (before_request f now b ≡ (some x, u)))
        ⊎ ((before_request f now b ≡ (none, count_request f u)) × (refusal f u ≡ none))
  unfolding before_request
  before_request_cases now b = elim (Option-cases (refusal f (update_state f now b))) [
    | inr (x, e) ↦ inl (x, rw (e, before_request) refl)
    | inl e ↦ inr (rw (e, before_request) refl, e)
  ]

  -- An admitted request is within the limit, and in the half-open state it is alone.
  refusal-none :
      (b : Breaker f)
      → b.active_requests ≤ b.config.max_concurrent_requests
      → b.config.max_concurrent_requests < two_63
      → refusal f b ≡ none
      → (b.active_requests < b.config.max_concurrent_requests)
        × (b.state ≢ opened)
        × (b.state ≡ half_open → b.active_requests ≡ 0)
  unfolding refusal
  refusal-none b l m e = (ground arith, ground arith, λ h. ground arith)

  call-step :
      (now : ℕ) (s : System f)
      → IsBounded f s
      → IsBounded f (step f s (call now)) × (IsConserved f s → IsConserved f (step f s (call now)))
  unfolding step count_request
  call-step now s v =
      let k = update_state-Keeps now s.breaker in
      let u = update_state f now s.breaker in
      let config_kept = ap (λ c. c.max_concurrent_requests) k.1 in
      elim (before_request_cases now s.breaker) [
        | inl (x, e) ↦ rw e (
          record {
            counted = omega (arith, k.0);
            limited = omega (arith, config_kept);
            small = omega (arith, config_kept);
          },
          λ c. ground (arith, c),
        )
        | inr (e, n) ↦
            let spare =
              (refusal-none u (omega (arith, k.0, config_kept)) (omega (arith, config_kept)) n).0 in
            rw e (
              record {
                counted = ground (arith, k.0);
                limited = omega (arith, k.0, config_kept);
                small = omega (arith, config_kept);
              },
              λ c. ground (arith, c),
            )
      ]

  report-step :
      (n : ℕ) (success : Bool) (duration now : ℕ) (s : System f)
      → s.running ≡ n
      → IsBounded f s
      → let s' = report_step f n success duration now s in
        IsBounded f s' × (IsConserved f s → IsConserved f s')
  unfolding report_step
  report-step zero success duration now s e v = (v, λ c. c)
  report-step (suc n) success duration now s e v =
      let k = after_request-counts success duration now s.breaker in
      let config_kept = ap (λ c. c.max_concurrent_requests) k.1 in
      (
        record {
          counted = omega (arith, k.0);
          limited = omega (arith, config_kept);
          small = omega (arith, config_kept);
        },
        λ c. omega (arith, c, k),
      )

  leave-step :
      (n : ℕ) (s : System f)
      → s.leaving ≡ n
      → IsBounded f s
      → IsBounded f (leave_step f n s) × (IsConserved f s → IsConserved f (leave_step f n s))
  unfolding leave_step leave
  leave-step zero s e v = (v, λ c. c)
  leave-step (suc n) s e v =
      (record { counted = ground arith; limited = omega arith; small = v.small }, λ c. c)

  reset-IsBounded : (now : ℕ) (s : System f) → IsBounded f s → IsBounded f (step f s (resets now))
  unfolding step reset
  reset-IsBounded now s v = record { counted = v.counted; limited = v.limited; small = v.small }

  query-step :
      (now : ℕ) (s : System f)
      → IsBounded f s
      → IsBounded f (step f s (query now))
        × (IsConserved f s → IsConserved f (step f s (query now)))
  unfolding step
  query-step now s v =
      let k = update_state-Keeps now s.breaker in
      let config_kept = ap (λ c. c.max_concurrent_requests) k.1 in
      (
        record {
          counted = omega (arith, k.0);
          limited = omega (arith, config_kept);
          small = omega (arith, config_kept);
        },
        λ c. omega (arith, c, k),
      )

  step-IsBounded : (s : System f) (e : Event) → IsBounded f s → IsBounded f (step f s e)
  unfolding step
  step-IsBounded s (call now) v = (call-step now s v).0
  step-IsBounded s (report success duration now) v =
      (report-step s.running success duration now s refl v).0
  step-IsBounded s leaves v = (leave-step s.leaving s refl v).0
  step-IsBounded s (query now) v = (query-step now s v).0
  step-IsBounded s (resets now) v = reset-IsBounded now s v

  step-IsConserved :
      (s : System f) (e : Event)
      → is_reset e ≡ false
      → IsBounded f s
      → IsConserved f s
      → IsConserved f (step f s e)
  unfolding step
  step-IsConserved s (call now) n v = (call-step now s v).1
  step-IsConserved s (report success duration now) n v =
      (report-step s.running success duration now s refl v).1
  step-IsConserved s leaves n v = (leave-step s.leaving s refl v).1
  step-IsConserved s (query now) n v = (query-step now s v).1
  step-IsConserved s (resets now) n v = λ c. cc

  -- In every interleaving, resets included, the breaker's count of active requests is the number
  -- of admitted requests that have not left, and never passes the limit, if that is below 2 ^ 63.
  pub run-IsBounded : (s : System f) (es : List Event) → IsBounded f s → IsBounded f (run f s es)
  unfolding run
  run-IsBounded s [] v = v
  run-IsBounded s (e ∷ es) v = run-IsBounded (step f s e) es (step-IsBounded s e v)

  -- In every interleaving without a reset, the requests counted in total are those counted as
  -- successful, those counted as failed and those that run f, modulo 2 ^ 64.
  pub run-IsConserved :
      (s : System f) (es : List Event)
      → All (λ e. is_reset e ≡ false) es
      → IsBounded f s
      → IsConserved f s
      → IsConserved f (run f s es)
  unfolding run
  run-IsConserved s [] n v c = c
  run-IsConserved s (e ∷ es) n v c =
      run-IsConserved (step f s e) es n.1 (step-IsBounded s e v) (step-IsConserved s e n.0 v c)

  -- A request that is admitted while the breaker is half open is the only active one; any admitted
  -- request finds fewer active ones than the limit.
  pub admitted_alone :
      (now : ℕ) (s : System f)
      → IsBounded f s
      → (before_request f now s.breaker).0 ≡ none
      → let s' = step f s (call now) in
        (s'.running ≡ suc s.running)
        × (s.running + s.leaving < s'.breaker.config.max_concurrent_requests)
        × (s'.breaker.state ≢ opened)
        × (s'.breaker.state ≡ half_open → s'.running + s'.leaving ≡ 1)
  unfolding step count_request
  admitted_alone now s v h = elim (before_request_cases now s.breaker) [
    | inl (x, e) ↦ absurd (ground (arith, ap (λ p. p.0) e))
    | inr (e, n) ↦
        let k = update_state-Keeps now s.breaker in
        let config_kept = ap (λ c. c.max_concurrent_requests) k.1 in
        let u = update_state f now s.breaker in
        let spare =
          refusal-none u (omega (arith, v.limited, k.0, config_kept))
            (omega (arith, config_kept, v.small)) n in
        rw e (refl, omega (arith, spare, k.0), spare.1, λ h. omega (arith, spare.2 h, k.0))
  ]
