-- ===== src/Fallback/Workers.antt =====
-- The limit of the calls that run at the same time.
use advanced_golang_tutorial.Prelude.{
  ℕ, zero, suc, ◌+◌, ◌≤◌, ◌≡◌, refl, ap, ◌∙◌, List, [], ◌∷◌, some, arith, leb, ◌==◌, length,
  length-snoc, get_elem?, erase_idx, Float64, Option-cases, Bool-cases, inl, inr,
}
use advanced_golang_tutorial.Fallback.Manager.{FallbackManagerConfig}
use advanced_golang_tutorial.Fallback.Execution.{
  enter_execute, leave_execute, open_execute, finish_execute,
}
use advanced_golang_tutorial.Fallback.{new_fallback_manager, reset, clear_cache, start, stop}
use advanced_golang_tutorial.Fallback.Runs.{
  Running, Event, arrives, enters, backs_out, opens, finishes, leaves, evaluates, resets, clears,
  starts, stops, init, step, run,
}
use advanced_golang_tutorial.Fallback.Windows.{
  evaluate_mode-SameCalls, finish_execute-window, finish_execute-workers,
}

length-erase_idx :
    {A : Type 0} (xs : List A) (i : ℕ) {x : A}
    → get_elem? xs i ≡ some x
    → suc (length (erase_idx xs i)) ≡ length xs
length-erase_idx [] i found = cc
length-erase_idx (x ∷ xs) zero found = refl
length-erase_idx (x ∷ xs) (suc i) found = ap suc (length-erase_idx xs i found)

module _ {F : Float64} {D : Type 0} where
  -- The calls that Execute has let in and that have not left.
  unfoldable pub running_calls : Running F D → ℕ
  running_calls s = s.admitted + length s.in_flight + s.leaving

  -- activeWorkers is the number of the calls that run and of those about to take the count back;
  -- the first are not above the limit.
  abbrev pub AreCounted : Running F D → Type 0
  AreCounted s =
      (s.manager.active_workers ≡ running_calls s + s.refused)
      × (running_calls s ≤ s.manager.config.max_concurrent_workers)

  enters-AreCounted : (s : Running F D) → AreCounted s → AreCounted (step enters s)
  unfolding step enter_execute running_calls
  enters-AreCounted s (counted, fits) =
      let limit = s.manager.config.max_concurrent_workers in
      elim (Bool-cases (s.arrived == 0)) [
        | inl nobody ↦ let goes : step enters s ≡ s = ground arith in rw goes (counted, fits)
        | inr someone ↦ elim (Bool-cases (leb (s.manager.active_workers + 1) limit)) [
          | inl within ↦ (ground (arith, counted), ground (arith, counted))
          | inr beyond ↦ (ground (arith, counted), ground (arith, fits))
        ]
      ]

  opens-AreCounted : (s : Running F D) → AreCounted s → AreCounted (step opens s)
  unfolding step open_execute running_calls
  opens-AreCounted s (counted, fits) =
      let one_more = length-snoc s.in_flight s.manager.current_mode in
      (ground (arith, counted, one_more), ground (arith, fits, one_more))

  pub step-AreCounted : (e : Event D) (s : Running F D) → AreCounted s → AreCounted (step e s)
  unfolding step leave_execute running_calls reset clear_cache start stop
  step-AreCounted arrives s (counted, fits) = (ground (arith, counted), ground (arith, fits))
  step-AreCounted enters s h = enters-AreCounted s h
  step-AreCounted backs_out s (counted, fits) = (ground (arith, counted), ground (arith, fits))
  step-AreCounted opens s h = opens-AreCounted s h
  step-AreCounted leaves s (counted, fits) = (ground (arith, counted), ground (arith, fits))
  step-AreCounted (finishes i key now duration a) s (counted, fits) =
      elim (Option-cases (get_elem? s.in_flight i)) [
        | inl nothing ↦
            let goes : step (finishes i key now duration a) s ≡ s = ground arith in
            rw goes (counted, fits)
        | inr (mode, running) ↦
            let goes : step (finishes i key now duration a) s ≡ record s {
              manager = (finish_execute mode key now duration a s.manager).1;
              in_flight = erase_idx s.in_flight i;
              leaving = s.leaving + 1;
            } =
              ground arith in
            let workers = finish_execute-workers mode key now duration a s.manager in
            let one_less = length-erase_idx s.in_flight i running in
            let limit =
              ap (λ c. c.max_concurrent_workers)
                (finish_execute-window mode key now duration a s.manager).0 in
            rw goes
              (workers ∙ omega (arith, counted, one_less), omega (arith, one_less, limit, fits))
      ]
  step-AreCounted (evaluates now) s (counted, fits) =
      let (config, (window, workers)) = evaluate_mode-SameCalls now s.manager in
      let limit = ap (λ c. c.max_concurrent_workers) config in
      (workers ∙ counted, omega (arith, workers, limit, fits))
  step-AreCounted (resets now) s h = h
  step-AreCounted clears s h = h
  step-AreCounted starts s h = ground (arith, h.0, h.1)
  step-AreCounted stops s h = ground (arith, h.0, h.1)

  run-AreCounted : (es : List (Event D)) (s : Running F D) → AreCounted s → AreCounted (run es s)
  unfolding run
  run-AreCounted [] s h = h
  run-AreCounted (e ∷ es) s h = run-AreCounted es (step e s) (step-AreCounted e s h)

  -- Whatever calls overlap with whatever evaluations and resets in a run of a new manager, each use
  -- of the counter a step of its own, activeWorkers is the number of the calls that Execute has let
  -- in and that have not left, and of those it refuses that have not yet taken their count back;
  -- and no more calls than MaxConcurrentWorkers are let in and have not left.
  pub workers_limited :
      (threshold recovery : F.Carrier) (cfg : FallbackManagerConfig F) (made : ℕ)
      (es : List (Event D))
      → AreCounted (run es (init threshold recovery cfg made))
  unfolding init new_fallback_manager running_calls
  workers_limited threshold recovery cfg made es =
      run-AreCounted es (init threshold recovery cfg made) (refl, omega arith)
