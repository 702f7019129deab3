-- ===== src/Breaker/Changes.antt =====
-- The calls of OnStateChange.
use advanced_golang_tutorial.Prelude.{
  ℕ, ◌≡◌, refl, ◌⊎◌, inl, inr, Bool, true, false, List, [], ◌∷◌, arith, get_elem?, ap, ◌∙◌,
  Bool-cases, ◌==◌, Option-cases, All,
}
use advanced_golang_tutorial.Breaker.{
  State, closed, half_open, opened, Breaker, current_state, before_request, after_request, admit,
  count_request,
}
use advanced_golang_tutorial.Breaker.Verdict.{
  next_state, counted, concluded, after_request-concluded,
}
use advanced_golang_tutorial.Breaker.System.{Event, call, finish, query, resets, System, step, run}

-- The transition diagram.
infix 40 ◌⟶◌
pub data ◌⟶◌ : State → State → Type 0 where
  trips : closed ⟶ opened
  probes : opened ⟶ half_open
  recovers : half_open ⟶ closed
  relapses : half_open ⟶ opened

-- A log, newest first, that leads through the diagram from `closed` to the state.
abbrev pub Leads : List (State × State) → State → Type 0
Leads [] s = s ≡ closed
Leads ((a, b) ∷ log) s = (b ≡ s) × (a ⟶ b) × Leads log a

abbrev pub is_reset : Event → Bool
is_reset (resets now) = true
is_reset _ = false

module _ {V E : Type 0} where
  abbrev Logs : Breaker V E → Breaker V E → Type 0
  Logs b b' =
      (b'.config ≡ b.config)
      × (((b'.state ≡ b.state) × (b'.changes ≡ b.changes))
          ⊎ ((b.state ⟶ b'.state) × (b'.changes ≡ (b.state, b'.state) ∷ b.changes)))

  Logs-Leads :
      (b b' : Breaker V E) → Logs b b' → Leads b.changes b.state → Leads b'.changes b'.state
  Logs-Leads b b' (c, inl (s, l)) h = rw (s, l) h
  Logs-Leads b b' (c, inr (s, l)) h = rw l (refl, s, h)

  current_state-Logs :
      (now : ℕ) (b : Breaker V E) → b.config.observed ≡ true → Logs b (current_state now b)
  unfolding current_state
  current_state-Logs now b o = grind (arith, probes)

  concluded-Logs :
      (success : Bool) (duration now : ℕ) (b : Breaker V E)
      → b.config.observed ≡ true
      → Logs b (
          concluded
            (next_state b.state success (b.config.ready_to_trip (counted success b.counts)))
            success
            duration
            now
            b)
  concluded-Logs success duration now b o = grind (arith, trips, recovers, relapses)

  admit-Logs : (t : State) (b : Breaker V E) → Logs b (admit t b).2
  unfolding admit count_request
  admit-Logs closed b = (refl, inl (refl, refl))
  admit-Logs half_open b = ground arith
  admit-Logs opened b = (refl, inl (refl, refl))

  -- A breaker with an observer, whose log leads to its state.
  pub record IsLogged (b : Breaker V E) : Type 0 where
    pub observes : b.config.observed ≡ true
    pub leads : Leads b.changes b.state

  Logs-IsLogged : (b b' : Breaker V E) → Logs b b' → IsLogged b → IsLogged b'
  Logs-IsLogged b b' m l = record {
    observes = ap (λ c. c.observed) m.0 ∙ l.observes;
    leads = Logs-Leads b b' m l.leads;
  }

  current_state-IsLogged : (now : ℕ) (b : Breaker V E) → IsLogged b → IsLogged (current_state now b)
  current_state-IsLogged now b l =
      Logs-IsLogged b (current_state now b) (current_state-Logs now b l.observes) l

  after_request-IsLogged :
      (g : ℕ) (success : Bool) (duration now : ℕ) (b : Breaker V E)
      → IsLogged b
      → IsLogged (after_request g success duration now b)
  after_request-IsLogged g success duration now b l =
      let l' = current_state-IsLogged now b l in
      rw (after_request-concluded g success duration now b)
        (elim (Bool-cases ((current_state now b).generation == g)) [
          | inl own ↦ rw own (
              Logs-IsLogged (current_state now b) _
                (concluded-Logs success duration now (current_state now b) l'.observes) l')
          | inr stale ↦ rw stale l'
        ])

  step-IsLogged :
      (s : System V E) (e : Event)
      → is_reset e ≡ false
      → IsLogged s.breaker
      → IsLogged (step s e).breaker
  unfolding step before_request
  step-IsLogged s (call now) n l =
      Logs-IsLogged (current_state now s.breaker) _
        (admit-Logs (current_state now s.breaker).state (current_state now s.breaker))
        (current_state-IsLogged now s.breaker l)
  step-IsLogged s (finish i success duration now) n l =
      elim (Option-cases (get_elem? s.in_flight i)) [
        | inl e ↦ rw (e, step) l
        | inr (g, e) ↦ rw (e, step) (after_request-IsLogged g success duration now s.breaker l)
      ]
  step-IsLogged s (query now) n l = current_state-IsLogged now s.breaker l
  step-IsLogged s (resets now) n l = cc

  -- Whatever goroutines do short of a reset, the calls of OnStateChange in their order are a walk
  -- through the diagram, one edge a call, from the closed state to the breaker's present state.
  pub run-IsLogged :
      (s : System V E) (es : List Event)
      → All (λ e. is_reset e ≡ false) es
      → IsLogged s.breaker
      → IsLogged (run s es).breaker
  unfolding run
  run-IsLogged s [] n l = l
  run-IsLogged s (e ∷ es) n l = run-IsLogged (step s e) es n.1 (step-IsLogged s e n.0 l)
