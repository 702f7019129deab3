-- ===== src/ConfigSystem/Kept.antt =====
-- Operations that record no version.
use advanced_golang_tutorial.Prelude.{
  ℕ, suc, ◌-◌, ◌≡◌, refl, sym, ap, ◌∙◌, ◌⊎◌, Bool, List, [], ◌∷◌, some, arith, add_i64, length,
  get_elem?, ltb, Bool-cases, Option-cases, inl, inr, ℤ,
}
use advanced_golang_tutorial.ConfigSystem.Validation.{ApplicationConfig, validate_config}
use advanced_golang_tutorial.ConfigSystem.Versions.{add_version}
use advanced_golang_tutorial.ConfigSystem.Sound.Steps.{accepts, runs_monitor, Status-cases}
use advanced_golang_tutorial.ConfigSystem.{
  ConfigSystem, Strategy, RolloutStage, RolloutExecution, started, same_checksum,
  apply_config_partially, rollback_to_previous_version, trigger_auto_rollback, complete_rollout,
  mark_rolling_back, start_stage, accept, promote_to, advance, time_out, monitor_rollout,
  monitor_rollout_progress, check_success_criteria, process_config_update, start_canary_rollout,
}

apply-versions :
    (a : ApplicationConfig) (percent : ℤ) (z : ConfigSystem)
    → (apply_config_partially a percent z).versions ≡ z.versions
unfolding apply_config_partially
apply-versions a percent z = ground arith

pub rollback-versions :
    (z : ConfigSystem) → (rollback_to_previous_version z).1.versions ≡ z.versions
unfolding rollback_to_previous_version
rollback-versions z = ground arith

pub trigger_auto_rollback-versions :
    (z : ConfigSystem) → (trigger_auto_rollback z).versions ≡ z.versions
unfolding trigger_auto_rollback
trigger_auto_rollback-versions z =
    rollback-versions (record z { rollout = mark_rolling_back z.rollout })

stages_cases :
    {A : Type 0} (xs : List A) → (xs ≡ []) ⊎ ((x : A) × (rest : List A) × (xs ≡ x ∷ rest))
stages_cases [] = inl refl
stages_cases (x ∷ xs) = inr (x, xs, refl)

pub the_value : {y z : ConfigSystem} → some y ≡ some z → y ≡ z
the_value e = cc

module _ {K : Type 0} (strategy : Strategy K) where
  start_stage-versions :
      (a : ApplicationConfig) (now : ℕ) (stage : RolloutStage K) (z : ConfigSystem)
      → (start_stage strategy a now stage z).versions ≡ add_version a z.versions
  unfolding start_stage
  start_stage-versions a now stage z = ap (add_version a) (apply-versions a stage.traffic_percent _)

  accept-versions :
      (a : ApplicationConfig) (now : ℕ) (z z' : ConfigSystem)
      → accept strategy a now z ≡ some (started, z')
      → z'.versions ≡ add_version a z.versions
  unfolding accept start_canary_rollout
  accept-versions a now z z' e = elim (stages_cases strategy.stages) [
    | inl empty ↦ absurd (let panics = rw (empty, start_canary_rollout, accept) at e in cc)
    | inr (stage, rest, stages) ↦
        let begun = start_stage strategy a now stage z in
        let same : record begun { update_count = add_i64 begun.update_count 1 } ≡ z' =
          cc (accepts strategy a now z stage rest stages) in
        ap (λ y. y.versions) (sym same) ∙ start_stage-versions a now stage z
  ]

  pub process_config_update-versions :
      (a : ApplicationConfig) (now : ℕ) (z z' : ConfigSystem)
      → process_config_update strategy (some a) now z ≡ some (started, z')
      → z'.versions ≡ add_version a z.versions
  unfolding process_config_update
  process_config_update-versions a now z z' e =
      elim (Bool-cases (same_checksum a z.current_config)) [
        | inl same ↦ absurd (ground arith)
        | inr new ↦ elim (Option-cases (validate_config strategy.rules a)) [
          | inr (x, bad) ↦ absurd (ground arith)
          | inl good ↦ accept-versions a now z z' (ground arith)
        ]
      ]

  promote_to-versions :
      (r : RolloutExecution) (stage : RolloutStage K) (z : ConfigSystem)
      → (promote_to strategy r stage z).versions ≡ z.versions
  unfolding promote_to
  promote_to-versions r stage z = ground arith

  time_out-versions : (now : ℕ) (z : ConfigSystem) → (time_out strategy now z).versions ≡ z.versions
  unfolding time_out
  time_out-versions now z = ground (arith, trigger_auto_rollback-versions z)

  advance-versions :
      (r : RolloutExecution) (z z' : ConfigSystem)
      → advance strategy r z ≡ some z'
      → z'.versions ≡ z.versions
  unfolding advance complete_rollout
  advance-versions r z z' e = elim (Bool-cases (ltb r.current_stage (length strategy.stages - 1))) [
    | inr last ↦ ground arith
    | inl more ↦ elim (Option-cases (get_elem? strategy.stages (suc r.current_stage))) [
      | inl outside ↦ absurd (ground arith)
      | inr (stage, found) ↦
          let same : promote_to strategy r stage z ≡ z' = ground arith in
          ap (λ y. y.versions) (sym same) ∙ promote_to-versions r stage z
    ]
  ]

  monitor_rollout-versions :
      (meets : K → Bool) (now : ℕ) (r : RolloutExecution) (z z' : ConfigSystem)
      → monitor_rollout strategy meets now r z ≡ some z'
      → z'.versions ≡ z.versions
  unfolding monitor_rollout
  monitor_rollout-versions meets now r z z' e =
      elim (Option-cases (get_elem? strategy.stages r.current_stage)) [
        | inl outside ↦ absurd (ground arith)
        | inr (stage, found) ↦ elim (Bool-cases (check_success_criteria strategy meets stage)) [
          | inr unmet ↦
              let same : time_out strategy now z ≡ z' = ground arith in
              ap (λ y. y.versions) (sym same) ∙ time_out-versions now z
          | inl met ↦ elim (Option-cases (advance strategy r z)) [
            | inl panics ↦ absurd (ground arith)
            | inr (y, moved) ↦
                let same : time_out strategy now y ≡ z' = ground arith in
                ap (λ x. x.versions) (sym same)
                ∙ time_out-versions now y
                ∙ advance-versions r z y moved
          ]
        ]
      ]

  pub monitor-versions :
      (meets : K → Bool) (now : ℕ) (z z' : ConfigSystem)
      → monitor_rollout_progress strategy meets now z ≡ some z'
      → z'.versions ≡ z.versions
  unfolding monitor_rollout_progress
  monitor-versions meets now z z' e = elim (Option-cases z.rollout) [
    | inl idle ↦ ground arith
    | inr (r, runs) ↦ elim (Status-cases r.status) [
      | inl runs_on ↦
          monitor_rollout-versions meets now r z z'
            (sym (runs_monitor strategy meets now z r runs runs_on) ∙ e)
      | inr (inl ended) ↦ ground arith
      | inr (inr ended) ↦ ground arith
    ]
  ]
