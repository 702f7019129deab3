-- ===== src/ConfigSystem/Sound/Steps.antt =====
-- Every step of the system succeeds and keeps it sound.
use advanced_golang_tutorial.Prelude.{
  ℕ, zero, suc, ◌-◌, ◌<◌, ◌≡◌, refl, ◌∙◌, ◌⊎◌, Bool, List, [], ◌∷◌, Option, none, some, arith,
  length, add_i64, get_elem?, ltb, Bool-cases, Option-cases, inl, inr,
}
use advanced_golang_tutorial.ConfigSystem.Validation.{ApplicationConfig, validate_config}
use advanced_golang_tutorial.ConfigSystem.Runs.{
  Event, update, monitor, fires, rolls_back, step, run,
}
use advanced_golang_tutorial.ConfigSystem.{
  ConfigSystem, Strategy, Status, started, RolloutExecution, RolloutStage, in_progress, completed,
  rolling_back, rollback_to_previous_version, trigger_auto_rollback, complete_rollout,
  same_checksum, start_stage, start_canary_rollout, process_config_update, accept, promote_to,
  advance, time_out, monitor_rollout, check_success_criteria, monitor_rollout_progress,
}
use advanced_golang_tutorial.ConfigSystem.Sound.{
  IsSound, time_out-IsSound, promote_to-IsSound, complete_rollout-IsSound, start_stage-IsSound,
  trigger_auto_rollback-IsSound, rollback-IsSound,
}

get_elem?_inside :
    {A : Type 0} (xs : List A) (i : ℕ) → i < length xs → (x : A) × (get_elem? xs i ≡ some x)
get_elem?_inside [] i h = absurd (omega arith)
get_elem?_inside (x ∷ xs) zero h = (x, refl)
get_elem?_inside (x ∷ xs) (suc i) h = get_elem?_inside xs i (omega arith)

List-cases :
    {A : Type 0} (xs : List A) → 0 < length xs → (x : A) × (rest : List A) × (xs ≡ x ∷ rest)
List-cases [] h = absurd (omega arith)
List-cases (x ∷ xs) h = (x, xs, refl)

pub Status-cases : (s : Status) → (s ≡ in_progress) ⊎ (s ≡ completed) ⊎ (s ≡ rolling_back)
Status-cases in_progress = inl refl
Status-cases completed = inr (inl refl)
Status-cases rolling_back = inr (inr refl)

module _ {K : Type 0} (strategy : Strategy K) where
  -- An operation that does not panic and leaves the system sound.
  abbrev Succeeds : Option ConfigSystem → Type 0
  Succeeds o = (z : ConfigSystem) × (o ≡ some z) × IsSound strategy z

  advance-Succeeds :
      (r : RolloutExecution) (z : ConfigSystem)
      → r.current_stage < length strategy.stages
      → IsSound strategy z
      → Succeeds (advance strategy r z)
  unfolding advance
  advance-Succeeds r z s h = elim (Bool-cases (ltb r.current_stage (length strategy.stages - 1))) [
    | inl more ↦
        let inside : suc r.current_stage < length strategy.stages = ground arith in
        let (stage, found) = get_elem?_inside strategy.stages (suc r.current_stage) inside in
        (
          promote_to strategy r stage z,
          rw (more, advance) (rw found refl),
          promote_to-IsSound strategy r stage z inside h,
        )
    | inr last ↦
        (complete_rollout r z, rw (last, advance) refl, complete_rollout-IsSound strategy r z s h)
  ]

  monitor_rollout-Succeeds :
      (meets : K → Bool) (now : ℕ) (r : RolloutExecution) (z : ConfigSystem)
      → r.current_stage < length strategy.stages
      → IsSound strategy z
      → Succeeds (monitor_rollout strategy meets now r z)
  unfolding monitor_rollout
  monitor_rollout-Succeeds meets now r z s h =
      let (stage, found) = get_elem?_inside strategy.stages r.current_stage s in
      elim (Bool-cases (check_success_criteria strategy meets stage)) [
        | inr unmet ↦ (
          time_out strategy now z,
          rw (found, monitor_rollout) (rw unmet refl),
          time_out-IsSound strategy now z h,
        )
        | inl met ↦
            let (z', moved, sound) = advance-Succeeds r z s h in
            (
              time_out strategy now z',
              rw (found, monitor_rollout) (rw met (rw moved refl)),
              time_out-IsSound strategy now z' sound,
            )
      ]

  stage-inside :
      (z : ConfigSystem) (r : RolloutExecution)
      → IsSound strategy z
      → z.rollout ≡ some r
      → r.current_stage < length strategy.stages
  stage-inside z r h e = let inside = h.at_stage in rw e at inside

  pub runs_monitor :
      (meets : K → Bool) (now : ℕ) (z : ConfigSystem) (r : RolloutExecution)
      → z.rollout ≡ some r
      → r.status ≡ in_progress
      → monitor_rollout_progress strategy meets now z ≡ monitor_rollout strategy meets now r z
  unfolding monitor_rollout_progress
  runs_monitor meets now z r runs runs_on = ground arith

  monitor-Succeeds :
      (meets : K → Bool) (now : ℕ) (z : ConfigSystem)
      → IsSound strategy z
      → Succeeds (monitor_rollout_progress strategy meets now z)
  unfolding monitor_rollout_progress
  monitor-Succeeds meets now z h = elim (Option-cases z.rollout) [
    | inl idle ↦ (z, ground arith, h)
    | inr (r, runs) ↦ elim (Status-cases r.status) [
      | inl runs_on ↦
          let (z', done, sound) =
            monitor_rollout-Succeeds meets now r z (stage-inside z r h runs) h in
          (z', runs_monitor meets now z r runs runs_on ∙ done, sound)
      | inr (inl ended) ↦ (z, ground arith, h)
      | inr (inr ended) ↦ (z, ground arith, h)
    ]
  ]

  count-IsSound :
      (n : ℕ) (z : ConfigSystem)
      → IsSound strategy z
      → IsSound strategy (record z { update_count = n })
  count-IsSound n z h = ground arith

  pub accepts :
      (c : ApplicationConfig) (now : ℕ) (z : ConfigSystem) (stage : RolloutStage K)
      (rest : List (RolloutStage K))
      → strategy.stages ≡ stage ∷ rest
      → let z' = start_stage strategy c now stage z in
        accept strategy c now z
        ≡ some (started, record z' { update_count = add_i64 z'.update_count 1 })
  unfolding accept start_canary_rollout
  accepts c now z stage rest stages = rw (stages, start_canary_rollout, accept) refl

  accept-Succeeds :
      (c : ApplicationConfig) (now : ℕ) (z : ConfigSystem)
      → 0 < length strategy.stages
      → validate_config strategy.rules c ≡ none
      → IsSound strategy z
      → (z' : ConfigSystem) × (accept strategy c now z ≡ some (started, z')) × IsSound strategy z'
  unfolding accept start_canary_rollout
  accept-Succeeds c now z p a h =
      let (stage, rest, stages) = List-cases strategy.stages p in
      let z' = start_stage strategy c now stage z in
      (
        record z' { update_count = add_i64 z'.update_count 1 },
        accepts c now z stage rest stages,
        count-IsSound _ z' (start_stage-IsSound strategy c now stage z p a h),
      )

  update-Succeeds :
      (c : Option ApplicationConfig) (now : ℕ) (z : ConfigSystem)
      → 0 < length strategy.stages
      → IsSound strategy z
      → Succeeds (step strategy (update c now) z)
  unfolding step process_config_update
  update-Succeeds none now z p h = (z, refl, h)
  update-Succeeds (some c) now z p h = elim (Bool-cases (same_checksum c z.current_config)) [
    | inl same ↦ (z, rw (same, process_config_update, step) refl, h)
    | inr new ↦ elim (Option-cases (validate_config strategy.rules c)) [
      | inr (e, bad) ↦ (z, rw (new, process_config_update, step) (rw bad refl), h)
      | inl good ↦
          let (z', done, sound) = accept-Succeeds c now z p good h in
          (z', rw (new, process_config_update, step) (rw good (rw done refl)), sound)
    ]
  ]

  step-Succeeds :
      (e : Event K) (z : ConfigSystem)
      → 0 < length strategy.stages
      → IsSound strategy z
      → Succeeds (step strategy e z)
  unfolding step
  step-Succeeds (update c now) z p h = update-Succeeds c now z p h
  step-Succeeds (monitor meets now) z p h = monitor-Succeeds meets now z h
  step-Succeeds fires z p h =
      (trigger_auto_rollback z, refl, trigger_auto_rollback-IsSound strategy z h)
  step-Succeeds rolls_back z p h =
      ((rollback_to_previous_version z).1, refl, rollback-IsSound strategy z h)

  -- For a strategy with stages, updates, rounds of the monitor, triggers and rollbacks, in any order:
  -- nothing panics, every configuration that is current, waits or is kept as a version is one that
  -- the validation accepts, the versions stay within their limit, and the rollout at a stage.
  pub run-IsSound :
      (es : List (Event K)) (z : ConfigSystem)
      → 0 < length strategy.stages
      → IsSound strategy z
      → (z' : ConfigSystem) × (run strategy es z ≡ some z') × IsSound strategy z'
  unfolding run
  run-IsSound [] z p h = (z, refl, h)
  run-IsSound (e ∷ es) z p h =
      let (z', done, sound) = step-Succeeds e z p h in
      let (end, ran, still) = run-IsSound es z' p sound in (end, rw (done, run) ran, still)
