-- ===== src/Fallback/Serving.antt =====
-- Runs in which every call that ends is served: each adds a success to the window.
use advanced_golang_tutorial.Prelude.{
  ℕ, suc, ◌+◌, ◌≡◌, refl, sym, subst, ◌∙◌, true, List, [], ◌∷◌, Option, none, some, arith,
  get_elem?, Text, Float64, Option-cases, inl, inr,
}
use advanced_golang_tutorial.Fallback.Sliding.{FallbackMode, RequestResult, add_to_window}
use advanced_golang_tutorial.Fallback.Manager.{FallbackManager, Answers}
use advanced_golang_tutorial.Fallback.Execution.{
  enter_execute, leave_execute, open_execute, finish_execute,
}
use advanced_golang_tutorial.Fallback.{clear_cache, start, stop}
use advanced_golang_tutorial.Fallback.Runs.{
  Running, Event, arrives, enters, backs_out, opens, finishes, leaves, evaluates, resets, clears,
  starts, stops, step, run,
}
use advanced_golang_tutorial.Fallback.Clearing.{Clearing, Clearing-step}
use advanced_golang_tutorial.Fallback.Frames.{SameMode, Serves, finish_execute-served}

unfoldable pub IsAnswered : {D : Type 0} → Option FallbackMode → Answers D → Type 0
unfolding Serves
IsAnswered {D} none a = Unit
IsAnswered {D} (some mode) a = Serves mode a

module _ {F : Float64} {D : Type 0} where
  -- No evaluation and no reset, and a call that ends is served by what its mode asks.
  unfoldable pub IsServed : Event D → Running F D → Type 0
  unfolding IsAnswered
  IsServed (finishes i key now duration a) s = IsAnswered (get_elem? s.in_flight i) a
  IsServed (evaluates now) s = ⊥
  IsServed (resets now) s = ⊥
  IsServed e s = Unit

  unfoldable pub AreServed : List (Event D) → Running F D → Type 0
  unfolding IsServed
  AreServed [] s = Unit
  AreServed (e ∷ es) s = IsServed e s × AreServed es (step e s)

  -- The number of the calls that end.
  unfoldable pub ended : Event D → Running F D → ℕ
  ended (finishes i key now duration a) s = elim (get_elem? s.in_flight i) [
    | none ↦ 0
    | some mode ↦ 1
  ]
  ended e s = 0

  unfoldable pub ended_calls : List (Event D) → Running F D → ℕ
  unfolding ended
  ended_calls [] s = 0
  ended_calls (e ∷ es) s = ended e s + ended_calls es (step e s)

  -- A step that leaves the window and the mode as they are.
  Clearing-same :
      (size n : ℕ) (m m' : FallbackManager F D)
      → SameMode m m'
      → m'.window ≡ m.window
      → Clearing size m.window n
      → Clearing size m'.window (0 + n) × SameMode m m'
  Clearing-same size n m m' same window h =
      let none_more : 0 + n ≡ n = omega arith in (rw (window, none_more) h, same)

  Clearing-served :
      (size n : ℕ) (mode : FallbackMode) (key : Text) (now duration : ℕ) (a : Answers D)
      (m : FallbackManager F D)
      → Serves mode a
      → Clearing size m.window n
      → Clearing size (finish_execute mode key now duration a m).1.window (1 + n)
        × SameMode m (finish_execute mode key now duration a m).1
  Clearing-served size n mode key now duration a m serves h =
      let (same, added) = finish_execute-served mode key now duration a m serves in
      let r : RequestResult = record {
        success = true;
        mode = mode;
        timestamp = now;
        duration = duration;
      } in
      let one_more : 1 + n ≡ suc n = omega arith in
      let kept = Clearing-step size m.window n r h refl in
      (
        subst (λ w. Clearing size w (1 + n)) (sym added)
            (subst (Clearing size (add_to_window r m.window)) (sym one_more) kept),
        same,
      )

  step-Clearing :
      (size n : ℕ) (e : Event D) (s : Running F D)
      → IsServed e s
      → Clearing size s.manager.window n
      → Clearing size (step e s).manager.window (ended e s + n)
        × SameMode s.manager (step e s).manager
  unfolding step IsServed IsAnswered ended enter_execute leave_execute open_execute clear_cache
      start stop
  step-Clearing size n arrives s served h =
      Clearing-same size n s.manager (step arrives s).manager
        (ground arith, (ground arith, ground arith)) (ground arith) h
  step-Clearing size n enters s served h =
      Clearing-same size n s.manager (step enters s).manager
        (ground arith, (ground arith, ground arith)) (ground arith) h
  step-Clearing size n backs_out s served h =
      Clearing-same size n s.manager (step backs_out s).manager
        (ground arith, (ground arith, ground arith)) (ground arith) h
  step-Clearing size n opens s served h =
      Clearing-same size n s.manager (step opens s).manager
        (ground arith, (ground arith, ground arith)) (ground arith) h
  step-Clearing size n leaves s served h =
      Clearing-same size n s.manager (step leaves s).manager
        (ground arith, (ground arith, ground arith)) (ground arith) h
  step-Clearing size n (finishes i key now duration a) s served h =
      elim (Option-cases (get_elem? s.in_flight i)) [
        | inl nothing ↦
            let goes : step (finishes i key now duration a) s ≡ s = ground arith in
            let none_ended : ended (finishes i key now duration a) s ≡ 0 = ground arith in
            rw (goes, none_ended)
              (Clearing-same size n s.manager s.manager (refl, (refl, refl)) refl h)
        | inr (mode, running) ↦
            let goes : (step (finishes i key now duration a) s).manager
                ≡ (finish_execute mode key now duration a s.manager).1 =
              ground arith in
            let one_ended : ended (finishes i key now duration a) s ≡ 1 = ground arith in
            let serves : Serves mode a = subst (λ o. IsAnswered o a) running served in
            rw (goes, one_ended) (Clearing-served size n mode key now duration a s.manager serves h)
      ]
  step-Clearing size n (evaluates now) s served h = elim served [ ]
  step-Clearing size n (resets now) s served h = elim served [ ]
  step-Clearing size n clears s served h =
      Clearing-same size n s.manager s.manager (refl, (refl, refl)) refl h
  step-Clearing size n starts s served h =
      Clearing-same size n s.manager (start s.manager).1
        (ground arith, (ground arith, ground arith)) (ground arith) h
  step-Clearing size n stops s served h =
      Clearing-same size n s.manager (stop s.manager).1 (ground arith, (ground arith, ground arith))
        (ground arith) h

  pub run-Clearing :
      (size n : ℕ) (es : List (Event D)) (s : Running F D)
      → AreServed es s
      → Clearing size s.manager.window n
      → Clearing size (run es s).manager.window (ended_calls es s + n)
        × SameMode s.manager (run es s).manager
  unfolding run AreServed ended_calls
  run-Clearing size n [] s served h =
      Clearing-same size n s.manager s.manager (refl, (refl, refl)) refl h
  run-Clearing size n (e ∷ es) s (first, others) h =
      let (kept, same) = step-Clearing size n e s first h in
      let (later, same_later) = run-Clearing size (ended e s + n) es (step e s) others kept in
      let counted : ended e s + ended_calls es (step e s) + n
          ≡ ended_calls es (step e s) + (ended e s + n) =
        omega arith in
      (
        rw counted later,
        (same_later.0 ∙ same.0, (same_later.1.0 ∙ same.1.0, same_later.1.1 ∙ same.1.1)),
      )
