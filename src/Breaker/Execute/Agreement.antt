-- ===== src/Breaker/Execute/Agreement.antt =====
-- Execute against ExecuteWithTimeout.
use advanced_golang_tutorial.Prelude.{
  ℕ, ◌≡◌, refl, Option, arith, ◌&&◌, leb, Option-cases, inl, inr,
}
use advanced_golang_tutorial.Breaker.{Error, Reply, Breaker, before_request}
use advanced_golang_tutorial.Breaker.Execute.{
  returned, replied, finished, judged, execute, execute_with_timeout,
}

module _ {V E : Type 0} where
  judged-and :
      (b : Breaker V E) (e : Option (Error E)) (duration : ℕ)
      → (b.config.is_successful e && leb duration b.config.slow_call_threshold)
        ≡ judged b e duration
  unfolding judged
  judged-and b e duration = ground arith

  -- For a request that returns before the timeout the two calls do the same, whatever other
  -- goroutines do meanwhile: the same reply, and the breaker changed in the same way. That holds
  -- for refused requests too.
  pub execute_agrees :
      (others : Breaker V E → Breaker V E) (r : Reply V E) (duration timeout now later : ℕ)
      (b : Breaker V E)
      → let (answer, b') = execute others (returned r) now duration later b in
        let (reply, b'') =
          execute_with_timeout others (finished (returned r) duration) timeout now later b in
        (answer ≡ replied reply) × (b'' ≡ b')
  unfolding execute execute_with_timeout
  execute_agrees others (v, e) duration timeout now later b =
      elim (Option-cases (before_request now b).1) [
        | inl admitted ↦ rw (admitted, execute, execute_with_timeout) (rw judged-and (refl, refl))
        | inr (x, refused) ↦ rw (refused, execute, execute_with_timeout) (refl, refl)
      ]
