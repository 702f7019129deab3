-- ===== src/ConfigSystem/Rollback.antt =====
-- What a rollback brings back.
use advanced_golang_tutorial.Prelude.{
  ℕ, ◌≡◌, refl, sym, ap, ◌∙◌, true, false, List, [], ◌∷◌, none, some, Option-cases, inl, inr, pos,
}
use advanced_golang_tutorial.ConfigSystem.Validation.{ApplicationConfig}
use advanced_golang_tutorial.ConfigSystem.Versions.{ConfigVersion, new_version, previous_version}
use advanced_golang_tutorial.ConfigSystem.Runs.{
  Event, update, monitor, fires, rolls_back, step, run,
}
use advanced_golang_tutorial.ConfigSystem.{
  ConfigSystem, Strategy, started, rollback_to_previous_version, trigger_auto_rollback,
  set_splitter, monitor_rollout_progress, process_config_update,
}
use advanced_golang_tutorial.ConfigSystem.Endings.{
  EndsIn, Ends, EndsIn-Ends, add_version-EndsIn, previous_version-append,
}
use advanced_golang_tutorial.ConfigSystem.Kept.{
  rollback-versions, trigger_auto_rollback-versions, the_value, process_config_update-versions,
  monitor-versions,
}

module _ {K : Type 0} (strategy : Strategy K) where
  -- Events that are no updates.
  abbrev pub NoUpdate : List (Event K) → Type 0
  NoUpdate [] = Unit {0}
  NoUpdate (update c now ∷ es) = ⊥
  NoUpdate (monitor meets now ∷ es) = NoUpdate es
  NoUpdate (fires ∷ es) = NoUpdate es
  NoUpdate (rolls_back ∷ es) = NoUpdate es

  run-versions :
      (es : List (Event K)) (z z' : ConfigSystem)
      → NoUpdate es
      → run strategy es z ≡ some z'
      → z'.versions ≡ z.versions
  unfolding run step
  run-versions [] z z' n e = ap (λ y. y.versions) (sym (the_value e))
  run-versions (update c now ∷ es) z z' n e = absurd n
  run-versions (monitor meets now ∷ es) z z' n e =
      elim (Option-cases (monitor_rollout_progress strategy meets now z)) [
        | inl panics ↦ absurd (let ends = rw (panics, run) at e in cc)
        | inr (y, moved) ↦
            run-versions es y z' n (rw (moved, run) at e)
            ∙ monitor-versions strategy meets now z y moved
      ]
  run-versions (fires ∷ es) z z' n e =
      run-versions es (trigger_auto_rollback z) z' n e ∙ trigger_auto_rollback-versions z
  run-versions (rolls_back ∷ es) z z' n e =
      run-versions es (rollback_to_previous_version z).1 z' n e ∙ rollback-versions z

  rolled_back_to :
      (v w : ConfigVersion) (z : ConfigSystem)
      → EndsIn v w z.versions
      → let (done, z') = rollback_to_previous_version z in
        (done ≡ true)
        × (z'.current_config ≡ some v.config)
        × (z'.pending_config ≡ none)
        × (z'.splitter
            ≡ record { current_percent = pos 100; target_percent = pos 100; is_active = false })
  unfolding rollback_to_previous_version set_splitter
  rolled_back_to v w z h =
      let found : previous_version z.versions.versions ≡ some v =
        ap previous_version h.all ∙ previous_version-append h.before v w in
      rw (found, rollback_to_previous_version) (refl, refl, refl, refl)

  updated-EndsIn :
      (v : ConfigVersion) (a : ApplicationConfig) (now : ℕ) (es : List (Event K))
      (z y y' : ConfigSystem)
      → Ends v z.versions
      → process_config_update strategy (some a) now z ≡ some (started, y)
      → NoUpdate es
      → run strategy es y ≡ some y'
      → EndsIn v (new_version a) y'.versions
  updated-EndsIn v a now es z y y' h e n ran =
      let same = run-versions es y y' n ran ∙ process_config_update-versions strategy a now z y e in
      rw same (add_version-EndsIn v a z.versions h)

  -- After an update has started a rollout, and whatever rounds of the monitor, triggers and rollbacks
  -- follow it one after the other without another update, a rollback succeeds and brings the version
  -- back that was the last one before the update, for all traffic, with nothing that waits. A round
  -- of the monitor that a rollback interrupts is not among these.
  pub rollback_restores :
      (v : ConfigVersion) (a : ApplicationConfig) (now : ℕ) (es : List (Event K))
      (z y y' : ConfigSystem)
      → Ends v z.versions
      → process_config_update strategy (some a) now z ≡ some (started, y)
      → NoUpdate es
      → run strategy es y ≡ some y'
      → let (done, z') = rollback_to_previous_version y' in
        (done ≡ true)
        × (z'.current_config ≡ some v.config)
        × (z'.pending_config ≡ none)
        × (z'.splitter
            ≡ record { current_percent = pos 100; target_percent = pos 100; is_active = false })
  rollback_restores v a now es z y y' h e n ran =
      rolled_back_to v (new_version a) y' (updated-EndsIn v a now es z y y' h e n ran)

  -- A configuration that was rolled back comes back: its version is still the last one, so when the
  -- next update is rolled back too, the system makes the configuration current that the first
  -- rollback took away, and not the one that was current between them.
  pub rolled_back_returns :
      (v : ConfigVersion) (a b : ApplicationConfig) (now later : ℕ) (es fs : List (Event K))
      (z y y' x x' : ConfigSystem)
      → Ends v z.versions
      → process_config_update strategy (some a) now z ≡ some (started, y)
      → NoUpdate es
      → run strategy es y ≡ some y'
      → process_config_update strategy (some b) later (rollback_to_previous_version y').1
        ≡ some (started, x)
      → NoUpdate fs
      → run strategy fs x ≡ some x'
      → ((rollback_to_previous_version y').1.current_config ≡ some v.config)
        × ((rollback_to_previous_version x').1.current_config ≡ some a)
  rolled_back_returns v a b now later es fs z y y' x x' h e n ran e' n' ran' =
      let first = updated-EndsIn v a now es z y y' h e n ran in
      let kept : Ends (new_version a) (rollback_to_previous_version y').1.versions =
        rw (rollback-versions y') (EndsIn-Ends v (new_version a) y'.versions first) in
      let second = updated-EndsIn (new_version a) b later fs _ x x' kept e' n' ran' in
      (
        (rolled_back_to v (new_version a) y' first).1,
        (rolled_back_to (new_version a) (new_version b) x' second).1,
      )
