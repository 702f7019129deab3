-- ===== src/Breaker/InFlight.antt =====
-- The account that a breaker keeps of the requests that run, through every interleaving.
use advanced_golang_tutorial.Prelude.{
  ℕ, ◌+◌, ◌*◌, ◌≤◌, ◌<◌, ◌≡◌, ◌≢◌, refl, ◌∙◌, ◌⊎◌, inl, inr, Bool, List, [], ◌∷◌, some, arith,
  if◌then◌else◌, ◌==◌, leb, u64, two_64, two_32, length, get_elem?, erase_idx, All, count,
  All-erase_idx, count-erase_idx, count_above, All-le_mono, Bool-cases, Option-cases,
}
use advanced_golang_tutorial.Breaker.{
  State, closed, half_open, opened, Breaker, current_state, before_request, on_success, on_failure,
  after_request, reset, admit, count_request, add_duration,
}
use advanced_golang_tutorial.Breaker.System.{
  Event, call, finish, query, resets, System, joined, step, run, Accounts,
}

module _ {V E : Type 0} where
  abbrev IsFresh : Breaker V E → Breaker V E → Type 0
  IsFresh b b' =
      (b'.generation ≡ b.generation + 1)
      × (b'.config.max_requests ≡ b.config.max_requests)
      × (b'.counts.requests ≡ 0)
      × (b'.counts.total_successes ≡ 0)
      × (b'.counts.total_failures ≡ 0)

  current_state_cases :
      (now : ℕ) (b : Breaker V E)
      → b.generation + 1 < two_64
      → (current_state now b ≡ b) ⊎ IsFresh b (current_state now b)
  unfolding current_state
  current_state_cases now b h = ground arith

  fresh-Accounts :
      (b b' : Breaker V E) (gs : List ℕ)
      → IsFresh b b'
      → All (λ g. g ≤ b.generation) gs
      → Accounts b' gs
  fresh-Accounts b b' gs f known =
      let none_yet = count_above b'.generation b.generation gs known (omega arith) in
      record {
        known = rw f.0 (All-le_mono b.generation (b.generation + 1) gs (omega arith) known);
        conserved = omega (arith, none_yet);
        probing = λ e. (omega (arith, none_yet), omega arith, omega arith, omega arith);
      }

  abbrev Room : Breaker V E → Type 0
  Room b = (b.generation + 1 < two_64) × (b.config.max_requests < two_32)

  current_state-Accounts :
      (now : ℕ) (b : Breaker V E) (gs : List ℕ)
      → Room b
      → Accounts b gs
      → Accounts (current_state now b) gs
  current_state-Accounts now b gs r a = elim (current_state_cases now b r.0) [
    | inl e ↦ rw e a
    | inr f ↦ fresh-Accounts b (current_state now b) gs f a.known
  ]

  admit-Accounts :
      (b : Breaker V E) (gs : List ℕ) (t : State)
      → b.state ≡ t
      → b.config.max_requests < two_32
      → Accounts b gs
      → let (g, refused, b') = admit t b in Accounts b' (joined g refused gs)
  unfolding admit joined count_request
  admit-Accounts b gs closed e r a = record {
    known = (omega arith, a.known);
    conserved = ground (arith, a.conserved);
    probing = λ h. absurd (cc);
  }
  admit-Accounts b gs half_open e r a =
      elim (Bool-cases (leb b.config.max_requests b.counts.requests)) [
        | inl full ↦ rw full a
        | inr spare ↦ rw spare (record {
          known = (omega arith, a.known);
          conserved = ground (arith, a.conserved);
          probing = λ h. ground (arith, a.probing h);
        })
      ]
  admit-Accounts b gs opened e r a = a

  -- A report counted in the generation that it finds.
  abbrev IsCounted : Breaker V E → Breaker V E → Type 0
  IsCounted b b' =
      (b'.generation ≡ b.generation)
      × (b'.state ≢ half_open)
      × (b'.config.max_requests ≡ b.config.max_requests)
      × (b'.counts.requests ≡ b.counts.requests)
      × ((b'.counts.total_successes ≡ u64 (b.counts.total_successes + 1))
            × (b'.counts.total_failures ≡ b.counts.total_failures)
          ⊎ (b'.counts.total_successes ≡ b.counts.total_successes)
            × (b'.counts.total_failures ≡ u64 (b.counts.total_failures + 1)))

  report : Bool → ℕ → ℕ → Breaker V E → Breaker V E
  report success duration now b =
      add_duration duration (if success then on_success b.state now b else on_failure b.state now b)

  report_cases :
      (success : Bool) (duration now : ℕ) (b : Breaker V E)
      → b.generation + 1 < two_64
      → IsFresh b (report success duration now b) ⊎ IsCounted b (report success duration now b)
  unfolding report add_duration on_success on_failure
  report_cases success duration now b h = ground arith

  counted-Accounts :
      (b b' : Breaker V E) (gs : List ℕ) (i : ℕ)
      → get_elem? gs i ≡ some b.generation
      → IsCounted b b'
      → Accounts b gs
      → Accounts b' (erase_idx gs i)
  counted-Accounts b b' gs i e c a =
      let one_less = count-erase_idx b.generation gs i b.generation e in
      record {
        known = rw c.0 (All-erase_idx (λ g. g ≤ b.generation) gs i a.known);
        conserved = rw c.0 (ground (arith, one_less, a.conserved));
        probing = λ h. absurd (c.1 h);
      }

  -- A report of a request from an earlier generation is not counted.
  stale-Accounts :
      (b : Breaker V E) (gs : List ℕ) (i g : ℕ)
      → get_elem? gs i ≡ some g
      → g ≢ b.generation
      → Accounts b gs
      → Accounts b (erase_idx gs i)
  stale-Accounts b gs i g e ne a =
      let as_many : count b.generation gs ≡ count b.generation (erase_idx gs i) =
        ground (arith, count-erase_idx b.generation gs i g e) in
      record {
        known = All-erase_idx (λ g. g ≤ b.generation) gs i a.known;
        conserved = rw as_many at (a.conserved);
        probing = rw as_many at (a.probing);
      }

  -- What every operation leaves to the next: the generations run up by at most two.
  abbrev Advance : Breaker V E → Breaker V E → Type 0
  Advance b b' =
      (b'.generation ≤ b.generation + 2) × (b'.config.max_requests ≡ b.config.max_requests)

  reported-Accounts :
      (success : Bool) (duration now : ℕ) (b : Breaker V E) (gs : List ℕ) (i g : ℕ)
      → get_elem? gs i ≡ some g
      → b.generation + 1 < two_64
      → Accounts b gs
      → let b' = if b.generation == g then report success duration now b else b in
        Accounts b' (erase_idx gs i)
        × (b'.generation ≤ b.generation + 1)
        × (b'.config.max_requests ≡ b.config.max_requests)
  reported-Accounts success duration now b gs i g e r a = elim (Bool-cases (b.generation == g)) [
    | inr stale ↦ rw stale (stale-Accounts b gs i g e (ground arith) a, omega arith, refl)
    | inl own ↦ rw own (elim (report_cases success duration now b r) [
      | inl f ↦ (
        fresh-Accounts b (report success duration now b) (erase_idx gs i) f
            (All-erase_idx (λ k. k ≤ b.generation) gs i a.known),
        omega arith,
        f.1,
      )
      | inr c ↦ (
        counted-Accounts b (report success duration now b) gs i (ground arith) c a,
        omega arith,
        c.2,
      )
    ])
  ]

  current_state-Advance :
      (now : ℕ) (b : Breaker V E)
      → b.generation + 1 < two_64
      → ((current_state now b).generation ≤ b.generation + 1)
        × ((current_state now b).config.max_requests ≡ b.config.max_requests)
  current_state-Advance now b r = elim (current_state_cases now b r) [
    | inl e ↦ rw e (omega arith)
    | inr f ↦ (omega arith, f.1)
  ]

  after_request-Accounts :
      (success : Bool) (duration now : ℕ) (b : Breaker V E) (gs : List ℕ) (i g : ℕ)
      → get_elem? gs i ≡ some g
      → b.generation + 2 < two_64
      → b.config.max_requests < two_32
      → Accounts b gs
      → Accounts (after_request g success duration now b) (erase_idx gs i)
        × Advance b (after_request g success duration now b)
  unfolding after_request report
  after_request-Accounts success duration now b gs i g e r m a =
      let (grown, kept) = current_state-Advance now b (omega arith) in
      let (a', grown', kept') =
        reported-Accounts success duration now (current_state now b) gs i g e (omega arith)
          (current_state-Accounts now b gs (omega arith, m) a) in
      (a', (omega arith, kept' ∙ kept))

  admit-Advance :
      (t : State) (b : Breaker V E)
      → ((admit t b).2.generation ≡ b.generation)
        × ((admit t b).2.config.max_requests ≡ b.config.max_requests)
  unfolding admit count_request
  admit-Advance closed b = (refl, refl)
  admit-Advance half_open b = ground arith
  admit-Advance opened b = (refl, refl)

  reset-IsFresh : (now : ℕ) (b : Breaker V E) → b.generation + 1 < two_64 → IsFresh b (reset now b)
  unfolding reset
  reset-IsFresh now b r = ground arith

  step-Accounts :
      (s : System V E) (e : Event)
      → s.breaker.generation + 2 < two_64
      → s.breaker.config.max_requests < two_32
      → Accounts s.breaker s.in_flight
      → Accounts (step s e).breaker (step s e).in_flight × Advance s.breaker (step s e).breaker
  unfolding step before_request
  step-Accounts s (call now) r m a =
      let (grown, kept) = current_state-Advance now s.breaker (omega arith) in
      let rolled = current_state now s.breaker in
      let (same, kept') = admit-Advance rolled.state rolled in
      (
        admit-Accounts rolled s.in_flight rolled.state refl (omega (arith, kept))
            (current_state-Accounts now s.breaker s.in_flight (omega arith, m) a),
        (omega arith, kept' ∙ kept),
      )
  step-Accounts s (finish i success duration now) r m a =
      elim (Option-cases (get_elem? s.in_flight i)) [
        | inl e ↦ rw (e, step) (a, (omega arith, refl))
        | inr (g, e) ↦
            rw (e, step)
              (after_request-Accounts success duration now s.breaker s.in_flight i g e r m a)
      ]
  step-Accounts s (query now) r m a =
      let (grown, kept) = current_state-Advance now s.breaker (omega arith) in
      (current_state-Accounts now s.breaker s.in_flight (omega arith, m) a, (omega arith, kept))
  step-Accounts s (resets now) r m a =
      let f = reset-IsFresh now s.breaker (omega arith) in
      (fresh-Accounts s.breaker (reset now s.breaker) s.in_flight f a.known, (omega arith, f.1))

  pub run-Accounts :
      (s : System V E) (es : List Event)
      → s.breaker.generation + 2 * length es < two_64
      → s.breaker.config.max_requests < two_32
      → Accounts s.breaker s.in_flight
      → Accounts (run s es).breaker (run s es).in_flight
  unfolding run
  run-Accounts s [] r m a = a
  run-Accounts s (e ∷ es) r m a =
      let (a', (grown, kept)) = step-Accounts s e (omega arith) m a in
      run-Accounts (step s e) es (omega arith) (rw kept m) a'
