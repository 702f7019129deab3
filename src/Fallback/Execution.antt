-- ===== src/Fallback/Execution.antt =====
-- Execute with what it does in each mode, and the cache.
use advanced_golang_tutorial.Prelude.{
  ℕ, ◌+◌, ◌-◌, Bool, true, false, Option, none, some, if◌then◌else◌, ltb, leb, u64, Text, same_text,
  Float64, ◌⊎◌, inl, inr,
}
use advanced_golang_tutorial.Fallback.Sliding.{
  FallbackMode, normal_mode, fallback, transition_mode, add_to_window,
}
use advanced_golang_tutorial.Fallback.Manager.{
  FallbackManager, CacheEntry, Counters, Error, too_many_workers, manager_stopped, service_failed,
  fallback_failed, Answers, Outcome, five_minutes, count_result,
}

module _ {F : Float64} {D : Type 0} where
  abbrev pub count_as : (Counters → Counters) → FallbackManager F D → FallbackManager F D
  count_as f m = record m { counters = f m.counters }

  abbrev pub count_normal : FallbackManager F D → FallbackManager F D
  count_normal =
      count_as (λ c. record c { normal_mode_requests = u64 (c.normal_mode_requests + 1) })

  abbrev pub count_fallback : FallbackManager F D → FallbackManager F D
  count_fallback =
      count_as (λ c. record c { fallback_mode_requests = u64 (c.fallback_mode_requests + 1) })

  abbrev pub count_hit : FallbackManager F D → FallbackManager F D
  count_hit = count_as (λ c. record c { cache_hits = u64 (c.cache_hits + 1) })

  abbrev pub count_miss : FallbackManager F D → FallbackManager F D
  count_miss = count_as (λ c. record c { cache_misses = u64 (c.cache_misses + 1) })

  unfoldable pub set_entry :
      Text → Option (CacheEntry D) → FallbackManager F D → FallbackManager F D
  unfolding same_text
  set_entry key e m = record m { cache = λ k. if same_text k key then e else m.cache k }

  unfoldable pub get_from_cache : Text → ℕ → FallbackManager F D → Option D × FallbackManager F D
  unfolding set_entry
  get_from_cache key now m = elim (m.cache key) [
    | none ↦ (none, m)
    | some e ↦
        if ltb e.ttl (now - e.timestamp) then (none, set_entry key none m) else (some e.data_of, m)
  ]

  unfoldable pub get_from_cache_ignore_ttl : Text → FallbackManager F D → Option D
  get_from_cache_ignore_ttl key m = elim (m.cache key) [ none ↦ none | some e ↦ some e.data_of ]

  unfoldable pub save_to_cache : Text → D → ℕ → ℕ → FallbackManager F D → FallbackManager F D
  unfolding set_entry
  save_to_cache key d ttl now m =
      set_entry key (some (record { data_of = d; timestamp = now; ttl = ttl })) m

  -- With the data of the provider where the service fails.
  unfoldable pub execute_normal_mode : Text → ℕ → Answers D → FallbackManager F D → Outcome F D
  unfolding get_from_cache save_to_cache
  execute_normal_mode key now a m =
      let (cached, looked) = get_from_cache key now m in
      elim cached [
        | some d ↦ (inr d, (true, count_hit looked))
        | none ↦ elim a.service [
          | some d ↦ (inr d, (true, save_to_cache key d five_minutes now (count_miss looked)))
          | none ↦
              if a.can_provide
              then elim a.provided [
                | some d ↦ (inr d, (false, count_miss looked))
                | none ↦ (inl service_failed, (false, count_miss looked))
              ]
              else (inl service_failed, (false, count_miss looked))
        ]
      ]

  unfoldable pub execute_fallback_mode : Text → Answers D → FallbackManager F D → Outcome F D
  unfolding get_from_cache_ignore_ttl
  execute_fallback_mode key a m = elim a.provided [
    | some d ↦ (inr d, (true, m))
    | none ↦ elim (get_from_cache_ignore_ttl key m) [
      | some d ↦ (inr d, (false, count_hit m))
      | none ↦ (inl fallback_failed, (false, m))
    ]
  ]

  unfoldable pub execute_transition_mode : Text → ℕ → Answers D → FallbackManager F D → Outcome F D
  unfolding execute_normal_mode execute_fallback_mode
  execute_transition_mode key now a m =
      if a.tries_service
      then execute_normal_mode key now a (count_normal m)
      else execute_fallback_mode key a (count_fallback m)

  -- Execute by the mode, with the count of a mode after its work.
  unfoldable pub execute_in :
      FallbackMode → Text → ℕ → Answers D → FallbackManager F D → Outcome F D
  unfolding execute_normal_mode execute_fallback_mode execute_transition_mode
  execute_in normal_mode key now a m =
      let (reply, (success, done)) = execute_normal_mode key now a m in
      (reply, (success, count_normal done))
  execute_in fallback key now a m =
      let (reply, (success, done)) = execute_fallback_mode key a m in
      (reply, (success, count_fallback done))
  execute_in transition_mode key now a m = execute_transition_mode key now a m

  unfoldable pub record_result :
      Bool → FallbackMode → ℕ → ℕ → FallbackManager F D → FallbackManager F D
  unfolding add_to_window count_result
  record_result success mode now duration m = record m {
    counters = count_result success m.counters;
    window =
        add_to_window
          (record { success = success; mode = mode; timestamp = now; duration = duration })
          m.window;
  }

  -- activeWorkers.Add(1), and whether the number that it answers is within the limit.
  unfoldable pub enter_execute : FallbackManager F D → Bool × FallbackManager F D
  enter_execute m =
      let workers = m.active_workers + 1 in
      (leb workers m.config.max_concurrent_workers, record m { active_workers = workers })

  -- activeWorkers.Add(-1).
  unfoldable pub leave_execute : FallbackManager F D → FallbackManager F D
  leave_execute m = record m { active_workers = m.active_workers - 1 }

  -- The count of the request and the reading of the mode.
  unfoldable pub open_execute : FallbackManager F D → FallbackMode × FallbackManager F D
  open_execute m = (
    m.current_mode,
    record m {
      counters = record m.counters { total_requests = u64 (m.counters.total_requests + 1) };
    },
  )

  -- The work in the mode that was read and the record of the result, up to the deferred decrement.
  unfoldable pub finish_execute :
      FallbackMode
      → Text
      → ℕ
      → ℕ
      → Answers D
      → FallbackManager F D
      → (Error ⊎ D) × FallbackManager F D
  unfolding execute_in record_result
  finish_execute mode key now duration a m =
      let (reply, (success, done)) = execute_in mode key now a m in
      (reply, record_result success mode now duration done)

  unfoldable pub execute :
      Text → ℕ → ℕ → Answers D → FallbackManager F D → (Error ⊎ D) × FallbackManager F D
  unfolding enter_execute leave_execute open_execute finish_execute
  execute key now duration a m =
      if m.is_cancelled
      then (inl manager_stopped, m)
      else let (admitted, entered) = enter_execute m in
        let (mode, opened) = open_execute entered in
        let (reply, done) = finish_execute mode key now duration a opened in
        if admitted
        then (reply, leave_execute done)
        else (inl too_many_workers, leave_execute entered)
