-- ===== src/ConfigSystem/Sound.antt =====
-- What stays true of the system in every run.
use advanced_golang_tutorial.Prelude.{
  All-snoc, ℕ, zero, suc, ◌+◌, ◌-◌, ◌≤◌, ◌<◌, ◌≡◌, refl, ap, ◌∙◌, Bool, true, false, List, [], ◌∷◌,
  ◌++◌, Option, none, some, arith, All, All-get_elem?, length, length-append, get_elem?, ltb, leb_ℤ,
  pos, ℤ, Bool-cases, Option-cases, inl, inr, if◌then◌else◌,
}
pub mod Steps
use advanced_golang_tutorial.ConfigSystem.Validation.{
  ApplicationConfig, ValidationRule, validate_config,
}
use advanced_golang_tutorial.ConfigSystem.Versions.{
  ConfigVersion, VersionController, new_version, add_version, previous_version, tail,
}
use advanced_golang_tutorial.ConfigSystem.Runs.{
  Event, update, monitor, fires, rolls_back, step, run,
}
use advanced_golang_tutorial.ConfigSystem.{
  ConfigSystem, Strategy, RollbackEvent, RolloutExecution, RolloutStage, in_progress, completed,
  rolling_back, set_splitter, set_target, apply_config_partially, rollback_to_previous_version,
  trigger_auto_rollback, complete_rollout, mark_rolling_back, start_stage, start_canary_rollout,
  process_config_update, accept, promote_to, advance, time_out, timed_out, monitor_rollout,
  check_success_criteria, monitor_rollout_progress,
}

-- No configuration, or one that the validation accepts.
abbrev pub Accepted : List ValidationRule → Option ApplicationConfig → Type 0
Accepted rules none = Unit {0}
Accepted rules (some c) = validate_config rules c ≡ none

-- No rollout, or one at a stage of the strategy.
abbrev pub AtStage : ℕ → Option RolloutExecution → Type 0
AtStage n none = Unit {0}
AtStage n (some r) = r.current_stage < n

pub record IsSound {K : Type 0} (strategy : Strategy K) (z : ConfigSystem) : Type 0 where
  pub current_accepted : Accepted strategy.rules z.current_config
  pub pending_accepted : Accepted strategy.rules z.pending_config
  pub versions_accepted :
      All (λ v. validate_config strategy.rules v.config ≡ none) z.versions.versions
  pub few_versions : length z.versions.versions ≤ z.versions.max_versions
  pub some_versions : 0 < z.versions.max_versions
  pub at_stage : AtStage (length strategy.stages) z.rollout

All-tail : (P : ConfigVersion → Type 0) (vs : List ConfigVersion) → All P vs → All P (tail vs)
All-tail P [] h = tt
All-tail P (v ∷ vs) h = h.1

length-tail : (vs : List ConfigVersion) → length (tail vs) ≡ length vs - 1
length-tail [] = omega arith
length-tail (v ∷ vs) = omega arith

add_version-All :
    (P : ConfigVersion → Type 0) (c : ApplicationConfig) (v : VersionController)
    → All P v.versions
    → P (new_version c)
    → All P (add_version c v).versions
unfolding add_version
add_version-All P c v h p =
    let grown = All-snoc P v.versions (new_version c) h p in
    elim (Bool-cases (ltb v.max_versions (length (v.versions ++ new_version c ∷ [])))) [
      | inl over ↦ rw over (All-tail P (v.versions ++ new_version c ∷ []) grown)
      | inr fits ↦ rw fits grown
    ]

length-add_version :
    (c : ApplicationConfig) (v : VersionController)
    → length v.versions ≤ v.max_versions
    → length (add_version c v).versions ≤ (add_version c v).max_versions
unfolding add_version
length-add_version c v h = ground (
  arith,
  length-append v.versions (new_version c ∷ []),
  length-tail (v.versions ++ new_version c ∷ []),
)

module _ {K : Type 0} (strategy : Strategy K) where
  set_splitter-IsSound :
      (current target : ℤ) (active : Bool) (z : ConfigSystem)
      → IsSound strategy z
      → IsSound strategy (set_splitter current target active z)
  unfolding set_splitter
  set_splitter-IsSound current target active z h = ground arith

  set_target-IsSound :
      (target : ℤ) (z : ConfigSystem) → IsSound strategy z → IsSound strategy (set_target target z)
  unfolding set_target
  set_target-IsSound target z h = ground arith

  apply_config_partially-IsSound :
      (c : ApplicationConfig) (percent : ℤ) (z : ConfigSystem)
      → Accepted strategy.rules (some c)
      → IsSound strategy z
      → IsSound strategy (apply_config_partially c percent z)
  unfolding apply_config_partially
  apply_config_partially-IsSound c percent z a h = ground arith

  rollout-IsSound :
      (o : Option RolloutExecution) (z : ConfigSystem)
      → AtStage (length strategy.stages) o
      → IsSound strategy z
      → IsSound strategy (record z { rollout = o })
  rollout-IsSound o z a h = ground arith

  previous-accepted :
      (vs : List ConfigVersion) (v : ConfigVersion)
      → All (λ v. validate_config strategy.rules v.config ≡ none) vs
      → previous_version vs ≡ some v
      → validate_config strategy.rules v.config ≡ none
  unfolding previous_version
  previous-accepted vs v h e = elim (Bool-cases (ltb (length vs) 2)) [
    | inl few ↦ absurd (let no_version = rw few at e in cc)
    | inr enough ↦
        All-get_elem? (λ v. validate_config strategy.rules v.config ≡ none) vs (length vs - 2) h
          (rw enough at e)
  ]

  pub rollback-IsSound :
      (z : ConfigSystem) → IsSound strategy z → IsSound strategy (rollback_to_previous_version z).1
  unfolding rollback_to_previous_version
  rollback-IsSound z h = elim (Option-cases (previous_version z.versions.versions)) [
    | inl no_version ↦ rw (no_version, rollback_to_previous_version) h
    | inr (v, found) ↦
        let accepted = previous-accepted z.versions.versions v h.versions_accepted found in
        rw (found, rollback_to_previous_version) (ground arith)
  ]

  mark-AtStage :
      (n : ℕ) (o : Option RolloutExecution) → AtStage n o → AtStage n (mark_rolling_back o)
  unfolding mark_rolling_back
  mark-AtStage n none h = tt
  mark-AtStage n (some r) h = h

  history-IsSound :
      (events : List RollbackEvent) (z : ConfigSystem)
      → IsSound strategy z
      → IsSound strategy (record z { rollback_history = events })
  history-IsSound events z h = ground arith

  pub trigger_auto_rollback-IsSound :
      (z : ConfigSystem) → IsSound strategy z → IsSound strategy (trigger_auto_rollback z)
  unfolding trigger_auto_rollback
  trigger_auto_rollback-IsSound z h = history-IsSound _ _ (
      rollback-IsSound (record z { rollout = mark_rolling_back z.rollout })
        (rollout-IsSound (mark_rolling_back z.rollout) z
          (mark-AtStage (length strategy.stages) z.rollout h.at_stage) h))

  pub complete_rollout-IsSound :
      (r : RolloutExecution) (z : ConfigSystem)
      → r.current_stage < length strategy.stages
      → IsSound strategy z
      → IsSound strategy (complete_rollout r z)
  unfolding complete_rollout
  complete_rollout-IsSound r z s h = elim (Option-cases z.pending_config) [
    | inl empty ↦ ground (arith, empty)
    | inr (c, waits) ↦ ground (arith, waits)
  ]

  pub versions-IsSound :
      (c : ApplicationConfig) (z : ConfigSystem)
      → Accepted strategy.rules (some c)
      → IsSound strategy z
      → IsSound strategy (record z { versions = add_version c z.versions })
  versions-IsSound c z a h = record {
    current_accepted = h.current_accepted;
    pending_accepted = h.pending_accepted;
    versions_accepted =
        add_version-All (λ v. validate_config strategy.rules v.config ≡ none) c z.versions
          h.versions_accepted a;
    few_versions = length-add_version c z.versions h.few_versions;
    some_versions = unfold add_version in h.some_versions;
    at_stage = h.at_stage;
  }

  pub start_stage-IsSound :
      (c : ApplicationConfig) (now : ℕ) (stage : RolloutStage K) (z : ConfigSystem)
      → 0 < length strategy.stages
      → Accepted strategy.rules (some c)
      → IsSound strategy z
      → IsSound strategy (start_stage strategy c now stage z)
  unfolding start_stage
  start_stage-IsSound c now stage z p a h = versions-IsSound c _ a (
      apply_config_partially-IsSound c stage.traffic_percent _ a (
        set_target-IsSound stage.traffic_percent _ (
          set_splitter-IsSound (pos 0) stage.traffic_percent true _ (
            rollout-IsSound
              (some (record { start_time = now; current_stage = 0; status = in_progress })) z p
              h))))

  pub time_out-IsSound :
      (now : ℕ) (z : ConfigSystem) → IsSound strategy z → IsSound strategy (time_out strategy now z)
  unfolding time_out
  time_out-IsSound now z h = elim (Bool-cases (timed_out strategy now z)) [
    | inl late ↦ rw (late, time_out) (trigger_auto_rollback-IsSound z h)
    | inr early ↦ rw (early, time_out) h
  ]

  pending-accepted :
      (z : ConfigSystem) (c : ApplicationConfig)
      → IsSound strategy z
      → z.pending_config ≡ some c
      → validate_config strategy.rules c ≡ none
  pending-accepted z c h e = let accepted = h.pending_accepted in rw e at accepted

  pub promote_to-IsSound :
      (r : RolloutExecution) (stage : RolloutStage K) (z : ConfigSystem)
      → suc r.current_stage < length strategy.stages
      → IsSound strategy z
      → IsSound strategy (promote_to strategy r stage z)
  unfolding promote_to
  promote_to-IsSound r stage z s h =
      let moved =
        set_target-IsSound stage.traffic_percent _
          (rollout-IsSound (some (record r { current_stage = suc r.current_stage })) z s h) in
      elim (Option-cases z.pending_config) [
        | inl empty ↦ rw (empty, promote_to) moved
        | inr (c, waits) ↦
            rw (waits, promote_to)
              (apply_config_partially-IsSound c stage.traffic_percent _
                (pending-accepted z c h waits) moved)
      ]
