-- ===== src/GrpcClient/Breaker/History.antt =====
-- The breaker against its history: which calls it admits, told from the reports and the instants.
use advanced_golang_tutorial.Prelude.{
  ℕ, suc, ◌+◌, ◌≡◌, Bool, true, false, ◌||◌, ◌&&◌, List, [], ◌∷◌, arith, ltb, leb, if◌then◌else◌,
}
use advanced_golang_tutorial.GrpcClient.Breaker.{
  State, closed, opened, half_open, CircuitBreaker, can_execute, on_success, on_failure,
}

pub data Event : Type 0 where
  asks : ℕ → Event
  succeeds : Event
  fails : ℕ → Event

unfoldable pub step : Event → CircuitBreaker → CircuitBreaker
step (asks now) b = (can_execute now b).1
step succeeds b = on_success b
step (fails now) b = on_failure now b

-- A history has its latest event first.
unfoldable pub after : List Event → CircuitBreaker → CircuitBreaker
unfolding step
after [] b = b
after (e ∷ es) b = step e (after es b)

-- The failures in a row.
unfoldable pub streak : List Event → ℕ
streak [] = 0
streak (asks now ∷ es) = streak es
streak (succeeds ∷ es) = 0
streak (fails now ∷ es) = suc (streak es)

unfoldable pub last_failure : List Event → ℕ
last_failure [] = 0
last_failure (asks now ∷ es) = last_failure es
last_failure (succeeds ∷ es) = last_failure es
last_failure (fails now ∷ es) = now

-- Whether a call has asked since the last report, when too many had failed and the time was over.
unfoldable pub probed : ℕ → ℕ → List Event → Bool
unfolding streak last_failure
probed threshold timeout [] = false
probed threshold timeout (asks now ∷ es) =
    probed threshold timeout es
    || (leb threshold (streak es) && ltb (last_failure es + timeout) now)
probed threshold timeout (succeeds ∷ es) = false
probed threshold timeout (fails now ∷ es) = false

abbrev pub status : ℕ → ℕ → List Event → State
status threshold timeout es =
    if ltb (streak es) threshold
    then closed
    else if probed threshold timeout es
    then half_open
    else opened

-- The breaker that a history describes.
pub record Tells (threshold timeout : ℕ) (es : List Event) (b : CircuitBreaker) : Type 0 where
  pub same_threshold : b.threshold ≡ threshold
  pub same_timeout : b.timeout ≡ timeout
  pub counts : b.failures ≡ streak es
  pub remembers : b.last_fail_time ≡ last_failure es
  pub stands : b.state ≡ status threshold timeout es

-- What a question answers and leaves, told from the state.
answer :
    (now : ℕ) (b : CircuitBreaker)
    → let late = ltb (b.last_fail_time + b.timeout) now in
      (b.state ≡ closed → can_execute now b ≡ (true, b))
      × (b.state ≡ half_open → can_execute now b ≡ (true, b))
      × (b.state ≡ opened
          → late ≡ true
          → can_execute now b ≡ (true, record b { state = half_open }))
      × (b.state ≡ opened → late ≡ false → can_execute now b ≡ (false, b))
unfolding can_execute
answer now b = (λ e. ground arith, λ e. ground arith, λ e l. ground arith, λ e l. ground arith)
