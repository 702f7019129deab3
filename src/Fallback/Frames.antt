-- ===== src/Fallback/Frames.antt =====
-- What the parts of a call leave alone, and when a call is recorded as a success.
use advanced_golang_tutorial.Prelude.{
  ℕ, ◌-◌, ◌≡◌, refl, true, false, none, some, arith, ltb, Text, Float64, Option-cases, Bool-cases,
  ◌⊎◌, inl, inr,
}
use advanced_golang_tutorial.Fallback.Sliding.{
  FallbackMode, normal_mode, fallback, transition_mode, add_to_window,
}
use advanced_golang_tutorial.Fallback.Manager.{FallbackManager, Answers, five_minutes}
use advanced_golang_tutorial.Fallback.Execution.{
  get_from_cache, save_to_cache, get_from_cache_ignore_ttl, execute_normal_mode,
  execute_fallback_mode, execute_transition_mode, execute_in, record_result, finish_execute,
  count_normal, count_fallback, count_hit, count_miss, set_entry,
}

-- What the call's mode asks answers: in the normal mode the service, in the fallback mode the
-- provider alone, in the transition the one that is chosen.
unfoldable pub Serves : {D : Type 0} → FallbackMode → Answers D → Type 0
Serves {D} normal_mode a = (d : D) × (a.service ≡ some d)
Serves {D} fallback a = (d : D) × (a.provided ≡ some d)
Serves {D} transition_mode a =
    ((a.tries_service ≡ true) × ((d : D) × (a.service ≡ some d)))
    ⊎ ((a.tries_service ≡ false) × ((d : D) × (a.provided ≡ some d)))

module _ {F : Float64} {D : Type 0} where
  -- The same mode, since the same instant, under the same configuration.
  abbrev pub SameMode : FallbackManager F D → FallbackManager F D → Type 0
  SameMode m m' =
      (m'.current_mode ≡ m.current_mode)
      × ((m'.last_mode_change ≡ m.last_mode_change) × (m'.config ≡ m.config))

  -- With the same window and the same calls at work.
  abbrev pub SameControl : FallbackManager F D → FallbackManager F D → Type 0
  SameControl m m' =
      SameMode m m' × ((m'.window ≡ m.window) × (m'.active_workers ≡ m.active_workers))

  get_from_cache-SameControl :
      (key : Text) (now : ℕ) (m : FallbackManager F D) → SameControl m (get_from_cache key now m).1
  unfolding get_from_cache set_entry
  get_from_cache-SameControl key now m = elim (Option-cases (m.cache key)) [
    | inl absent ↦
        let goes : (get_from_cache key now m).1 ≡ m = ground arith in
        rw goes ((refl, (refl, refl)), (refl, refl))
    | inr (e, present) ↦ elim (Bool-cases (ltb e.ttl (now - e.timestamp))) [
      | inl late ↦
          let goes : (get_from_cache key now m).1 ≡ set_entry key none m = ground arith in
          rw goes ((refl, (refl, refl)), (refl, refl))
      | inr in_time ↦
          let goes : (get_from_cache key now m).1 ≡ m = ground arith in
          rw goes ((refl, (refl, refl)), (refl, refl))
    ]
  ]

  execute_normal_mode-SameControl :
      (key : Text) (now : ℕ) (a : Answers D) (m : FallbackManager F D)
      → SameControl m (execute_normal_mode key now a m).1.1
  unfolding execute_normal_mode save_to_cache set_entry
  execute_normal_mode-SameControl key now a m =
      let looked = (get_from_cache key now m).1 in
      let same = get_from_cache-SameControl key now m in
      elim (Option-cases (get_from_cache key now m).0) [
        | inr (d, cached) ↦
            let goes : (execute_normal_mode key now a m).1.1 ≡ count_hit looked = ground arith in
            rw goes same
        | inl absent ↦ elim (Option-cases a.service) [
          | inr (d, served) ↦
              let goes : (execute_normal_mode key now a m).1.1
                  ≡ save_to_cache key d five_minutes now (count_miss looked) =
                ground arith in
              rw goes same
          | inl broken ↦
              let goes : (execute_normal_mode key now a m).1.1 ≡ count_miss looked = ground arith in
              rw goes same
        ]
      ]

  execute_fallback_mode-SameControl :
      (key : Text) (a : Answers D) (m : FallbackManager F D)
      → SameControl m (execute_fallback_mode key a m).1.1
  unfolding execute_fallback_mode
  execute_fallback_mode-SameControl key a m = elim (Option-cases a.provided) [
    | inr (d, provided) ↦
        let goes : (execute_fallback_mode key a m).1.1 ≡ m = ground arith in
        rw goes ((refl, (refl, refl)), (refl, refl))
    | inl nothing ↦ elim (Option-cases (get_from_cache_ignore_ttl key m)) [
      | inr (d, cached) ↦
          let goes : (execute_fallback_mode key a m).1.1 ≡ count_hit m = ground arith in
          rw goes ((refl, (refl, refl)), (refl, refl))
      | inl absent ↦
          let goes : (execute_fallback_mode key a m).1.1 ≡ m = ground arith in
          rw goes ((refl, (refl, refl)), (refl, refl))
    ]
  ]

  pub execute_in-SameControl :
      (mode : FallbackMode) (key : Text) (now : ℕ) (a : Answers D) (m : FallbackManager F D)
      → SameControl m (execute_in mode key now a m).1.1
  unfolding execute_in execute_transition_mode
  execute_in-SameControl normal_mode key now a m = execute_normal_mode-SameControl key now a m
  execute_in-SameControl fallback key now a m = execute_fallback_mode-SameControl key a m
  execute_in-SameControl transition_mode key now a m = elim (Bool-cases a.tries_service) [
    | inl tries ↦
        let goes : execute_in transition_mode key now a m
            ≡ execute_normal_mode key now a (count_normal m) =
          ground arith in
        rw goes (execute_normal_mode-SameControl key now a (count_normal m))
    | inr spares ↦
        let goes : execute_in transition_mode key now a m
            ≡ execute_fallback_mode key a (count_fallback m) =
          ground arith in
        rw goes (execute_fallback_mode-SameControl key a (count_fallback m))
  ]

  execute_normal_mode-succeeds :
      (key : Text) (now : ℕ) (a : Answers D) (d : D) (m : FallbackManager F D)
      → a.service ≡ some d
      → (execute_normal_mode key now a m).1.0 ≡ true
  unfolding execute_normal_mode
  execute_normal_mode-succeeds key now a d m served =
      elim (Option-cases (get_from_cache key now m).0) [
        | inl absent ↦ ground arith
        | inr (e, cached) ↦ ground arith
      ]

  execute_fallback_mode-succeeds :
      (key : Text) (a : Answers D) (d : D) (m : FallbackManager F D)
      → a.provided ≡ some d
      → (execute_fallback_mode key a m).1.0 ≡ true
  unfolding execute_fallback_mode
  execute_fallback_mode-succeeds key a d m provided = ground arith

  execute_in-succeeds :
      (mode : FallbackMode) (key : Text) (now : ℕ) (a : Answers D) (m : FallbackManager F D)
      → Serves mode a
      → (execute_in mode key now a m).1.0 ≡ true
  unfolding execute_in execute_transition_mode Serves
  execute_in-succeeds normal_mode key now a m (d, served) =
      execute_normal_mode-succeeds key now a d m served
  execute_in-succeeds fallback key now a m (d, provided) =
      execute_fallback_mode-succeeds key a d m provided
  execute_in-succeeds transition_mode key now a m (inl (tries, (d, served))) =
      let succeeds = execute_normal_mode-succeeds key now a d (count_normal m) served in
      ground arith
  execute_in-succeeds transition_mode key now a m (inr (spares, (d, provided))) =
      let succeeds = execute_fallback_mode-succeeds key a d (count_fallback m) provided in
      ground arith

  -- A call that is served adds a success to the window and keeps the mode.
  pub finish_execute-served :
      (mode : FallbackMode) (key : Text) (now duration : ℕ) (a : Answers D)
      (m : FallbackManager F D)
      → Serves mode a
      → SameMode m (finish_execute mode key now duration a m).1
        × ((finish_execute mode key now duration a m).1.window
            ≡ add_to_window
                (record { success = true; mode = mode; timestamp = now; duration = duration })
                m.window)
  unfolding finish_execute record_result
  finish_execute-served mode key now duration a m h =
      let same = execute_in-SameControl mode key now a m in
      let succeeds = execute_in-succeeds mode key now a m h in
      let w = same.1.0 in (same.0, ground arith)
