-- ===== src/ConfigSystem.antt =====
-- The configuration system of
-- 08_performance_optimization_and_production_operations/ans_03/zero_downtime_config.go: updates,
-- canary rollouts and rollbacks. Callbacks, back-ups, the audit log and the metrics of a rollout are
-- left out. `none` as a result is a panic of an index out of range.
use advanced_golang_tutorial.Prelude.{
  ℕ, suc, ◌+◌, ◌-◌, Bool, true, false, ◌&&◌, List, [], ◌∷◌, ◌++◌, Option, none, some, if◌then◌else◌,
  ltb, length, get_elem?, add_i64, ℤ, pos, leb_ℤ, Text, same_text,
}
pub mod Validation
pub mod Versions
pub mod Runs
pub mod Sound
pub mod Endings
pub mod Kept
pub mod Rollback
mod Tests
use Validation.{ApplicationConfig, ValidationRule, ConfigError, validate_config}
use Versions.{VersionController, add_version, previous_version}

-- The criteria of success are a parameter: their check compares float64 metrics of the traffic.
pub record RolloutStage (K : Type 0) : Type 0 where
  pub traffic_percent : ℤ
  pub success_criteria : Option K

pub data Status : Type 0 where
  in_progress : Status
  completed : Status
  rolling_back : Status

abbrev pub is_in_progress : Status → Bool
is_in_progress in_progress = true
is_in_progress _ = false

pub record RolloutExecution : Type 0 where
  pub start_time : ℕ
  pub current_stage : ℕ
  pub status : Status

pub record TrafficSplitter : Type 0 where
  pub current_percent : ℤ
  pub target_percent : ℤ
  pub is_active : Bool

-- A rollback that was recorded, by its success.
pub data RollbackEvent : Type 0 where
  rolled_back : Bool → RollbackEvent

-- The settings that do not change: the stages, MaxDuration and the rules.
pub record Strategy (K : Type 0) : Type 0 where
  pub stages : List (RolloutStage K)
  pub max_duration : ℕ
  pub rules : List ValidationRule

pub record ConfigSystem : Type 0 where
  pub current_config : Option ApplicationConfig
  pub pending_config : Option ApplicationConfig
  pub versions : VersionController
  pub rollout : Option RolloutExecution
  pub splitter : TrafficSplitter
  pub update_count : ℕ
  pub rollback_history : List RollbackEvent

unfoldable pub set_splitter : ℤ → ℤ → Bool → ConfigSystem → ConfigSystem
set_splitter current target active z = record z {
  splitter = record { current_percent = current; target_percent = target; is_active = active };
}

unfoldable pub set_target : ℤ → ConfigSystem → ConfigSystem
set_target target z = record z { splitter = record (z.splitter) { target_percent = target } }

unfoldable pub apply_config_partially : ApplicationConfig → ℤ → ConfigSystem → ConfigSystem
apply_config_partially c percent z =
    if leb_ℤ (pos 100) percent
    then record z { current_config = some c }
    else record z { pending_config = some c }

-- Without a round of the monitor that stores a configuration meanwhile, which no lock prevents.
unfoldable pub rollback_to_previous_version : ConfigSystem → Bool × ConfigSystem
unfolding set_splitter
rollback_to_previous_version z = elim (previous_version z.versions.versions) [
  | none ↦ (false, z)
  | some v ↦ (
    true,
    set_splitter (pos 100) (pos 100) false
        (record z { current_config = some v.config; pending_config = none }),
  )
]

pub mark_rolling_back : Option RolloutExecution → Option RolloutExecution
mark_rolling_back none = none
mark_rolling_back (some r) = some (record r { status = rolling_back })

unfoldable pub trigger_auto_rollback : ConfigSystem → ConfigSystem
unfolding mark_rolling_back rollback_to_previous_version
trigger_auto_rollback z =
    let (done, z') =
      rollback_to_previous_version (record z { rollout = mark_rolling_back z.rollout }) in
    record z' { rollback_history = z'.rollback_history ++ rolled_back done ∷ [] }

pub complete_rollout : RolloutExecution → ConfigSystem → ConfigSystem
unfolding set_splitter
complete_rollout r z = set_splitter (pos 100) z.splitter.target_percent false (record z {
  rollout = some (record r { status = completed });
  current_config = elim z.pending_config [ none ↦ z.current_config | some c ↦ some c ];
  pending_config = none;
})

pub data Update : Type 0 where
  load_failed : Update
  unchanged : Update
  rejected : ConfigError → Update
  started : Update

pub same_checksum : ApplicationConfig → Option ApplicationConfig → Bool
same_checksum c none = false
same_checksum c (some old) = same_text old.checksum c.checksum

module _ {K : Type 0} (strategy : Strategy K) where
  pub start_stage : ApplicationConfig → ℕ → RolloutStage K → ConfigSystem → ConfigSystem
  unfolding set_splitter set_target apply_config_partially
  start_stage c now stage z =
      let begun = set_splitter (pos 0) stage.traffic_percent true (record z {
        rollout = some (record { start_time = now; current_stage = 0; status = in_progress });
      }) in
      let applied =
        apply_config_partially c stage.traffic_percent (set_target stage.traffic_percent begun) in
      record applied { versions = add_version c applied.versions }

  -- startCanaryRollout and applyConfigGradually.
  unfoldable pub start_canary_rollout : ApplicationConfig → ℕ → ConfigSystem → Option ConfigSystem
  unfolding start_stage
  start_canary_rollout c now z = elim strategy.stages [
    | [] ↦ none
    | stage ∷ stages ↦ some (start_stage c now stage z)
  ]

  pub accept : ApplicationConfig → ℕ → ConfigSystem → Option (Update × ConfigSystem)
  unfolding start_canary_rollout
  accept c now z = elim (start_canary_rollout c now z) [
    | none ↦ none
    | some z' ↦ some (started, record z' { update_count = add_i64 z'.update_count 1 })
  ]

  -- The configuration of the event, with its checksum, or that of the file; `none` where that does
  -- not load.
  unfoldable pub process_config_update :
      Option ApplicationConfig → ℕ → ConfigSystem → Option (Update × ConfigSystem)
  unfolding same_checksum accept
  process_config_update none now z = some (load_failed, z)
  process_config_update (some c) now z =
      let judged : Option (Update × ConfigSystem) = elim (validate_config strategy.rules c) [
        | none ↦ accept c now z
        | some e ↦ some (rejected e, z)
      ] in
      if same_checksum c z.current_config then some (unchanged, z) else judged

  pub check_success_criteria : (K → Bool) → RolloutStage K → Bool
  check_success_criteria meets stage = elim stage.success_criteria [
    | none ↦ true
    | some k ↦ meets k
  ]

  -- The stage after the current one, if there is one.
  pub promote_to : RolloutExecution → RolloutStage K → ConfigSystem → ConfigSystem
  unfolding set_target apply_config_partially
  promote_to r stage z =
      let promoted =
        set_target stage.traffic_percent
          (record z { rollout = some (record r { current_stage = suc r.current_stage }) }) in
      elim promoted.pending_config [
        | none ↦ promoted
        | some c ↦ apply_config_partially c stage.traffic_percent promoted
      ]

  pub advance : RolloutExecution → ConfigSystem → Option ConfigSystem
  unfolding promote_to complete_rollout
  advance r z =
      let next : Option ConfigSystem = elim (get_elem? strategy.stages (suc r.current_stage)) [
        | none ↦ none
        | some stage ↦ some (promote_to r stage z)
      ] in
      if ltb r.current_stage (length strategy.stages - 1) then next else some (complete_rollout r z)

  pub timed_out : ℕ → ConfigSystem → Bool
  timed_out now z = elim z.rollout [
    | none ↦ false
    | some r ↦ is_in_progress r.status && ltb (r.start_time + strategy.max_duration) now
  ]

  pub time_out : ℕ → ConfigSystem → ConfigSystem
  unfolding timed_out trigger_auto_rollback
  time_out now z = if timed_out now z then trigger_auto_rollback z else z

  -- A round of monitorRolloutProgress for a rollout in progress, with nothing that comes in between
  -- its promotion, its completion and its time-out.
  pub monitor_rollout : (K → Bool) → ℕ → RolloutExecution → ConfigSystem → Option ConfigSystem
  unfolding check_success_criteria advance time_out
  monitor_rollout meets now r z = elim (get_elem? strategy.stages r.current_stage) [
    | none ↦ none
    | some stage ↦ elim (check_success_criteria meets stage) [
      | false ↦ some (time_out now z)
      | true ↦ elim (advance r z) [ none ↦ none | some z' ↦ some (time_out now z') ]
    ]
  ]

  unfoldable pub monitor_rollout_progress : (K → Bool) → ℕ → ConfigSystem → Option ConfigSystem
  unfolding monitor_rollout
  monitor_rollout_progress meets now z = elim z.rollout [
    | none ↦ some z
    | some r ↦ elim r.status [
      | in_progress ↦ monitor_rollout meets now r z
      | completed ↦ some z
      | rolling_back ↦ some z
    ]
  ]

  -- loadInitialConfig with the configuration of the file.
  unfoldable pub load_initial_config :
      ApplicationConfig → ConfigSystem → Option ConfigError × ConfigSystem
  load_initial_config c z = elim (validate_config strategy.rules c) [
    | some e ↦ (some e, z)
    | none ↦ (none, record z { current_config = some c; versions = add_version c z.versions })
  ]

-- createDefaultConfig, given the checksum of the file that it writes: no version is recorded.
unfoldable pub create_default_config : ApplicationConfig → ConfigSystem → ConfigSystem
create_default_config c z = record z { current_config = some c }

unfoldable pub new_system : ConfigSystem
new_system = record {
  current_config = none;
  pending_config = none;
  versions = record { versions = []; current_version = []; max_versions = 50; version_counter = 0 };
  rollout = none;
  splitter = record { current_percent = pos 0; target_percent = pos 0; is_active = false };
  update_count = 0;
  rollback_history = [];
}
