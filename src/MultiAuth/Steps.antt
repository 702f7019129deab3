-- ===== src/MultiAuth/Steps.antt =====
-- What a step of a run does to the cache and to the configuration.
use advanced_golang_tutorial.Prelude.{
  ℕ, ◌≤◌, ◌≡◌, refl, List, arith, Option-cases, inl, inr, All, length, Text, get_elem?,
}
use advanced_golang_tutorial.MultiAuth.Selection.{AuthResult, select_best_result}
use advanced_golang_tutorial.MultiAuth.Cache.{
  CacheEntry, touch, look_up, evict_cache_entry, new_entry, cache_result,
}
use advanced_golang_tutorial.MultiAuth.{
  MultiAuthSystem, Answer, register_provider, check_cache, evict_expired, touch_cached,
  execute_parallel_auth, finish_authentication, get_enabled_providers,
}
use advanced_golang_tutorial.MultiAuth.Runs.{
  Event, registers, checks, evicts, touches, asks, finishes, Running, InTime, step,
}
use advanced_golang_tutorial.MultiAuth.Entries.{All-remove, All-touch_entry, All-cache_result}

-- An event in which a call returns the result `r` for a token with the hash `k`.
unfoldable pub Returns : Event → ℕ → Running → Text → AuthResult → ℕ → Type 0
Returns (finishes j results at visits) now s k r made =
    (j ≡ k) × ((at ≡ made) × ((finish_authentication j results at now visits s.system).0 ≡ inr r))
Returns e now s k r made = ⊥

pub check_cache-cache :
    (k : Text) (now : ℕ) (mas : MultiAuthSystem)
    → ((check_cache k now mas).1.cache ≡ mas.cache)
      × ((check_cache k now mas).1.config ≡ mas.config)
unfolding check_cache look_up
check_cache-cache k now mas = (ground arith, ground arith)

pub check_cache-found :
    (k : Text) (now : ℕ) (mas : MultiAuthSystem)
    → (check_cache k now mas).0 ≡ look_up k now mas.cache
unfolding check_cache look_up
check_cache-found k now mas = ground arith

pub execute-cache :
    (arrivals : List Text) (answers : Text → Answer) (mas : MultiAuthSystem)
    → ((execute_parallel_auth arrivals answers mas).1.cache ≡ mas.cache)
      × ((execute_parallel_auth arrivals answers mas).1.config ≡ mas.config)
unfolding execute_parallel_auth
execute-cache arrivals answers mas = (ground arith, ground arith)

pub step-config :
    (e : Event) (now : ℕ) (s : Running) → (step e now s).system.config ≡ s.system.config
unfolding step register_provider evict_expired touch_cached finish_authentication
step-config (registers name) now s = refl
step-config (checks k) now s = (check_cache-cache k now s.system).1
step-config (evicts i) now s = ground arith
step-config (touches k at) now s = refl
step-config (asks arrivals answers) now s = (execute-cache arrivals answers s.system).1
step-config (finishes k results made visits) now s = ground arith

module _ (Q : Text × CacheEntry → Type 0) where
  -- A predicate of the entries that no touch ends and that the entry of each returned result has.
  pub step-All :
      (e : Event) (now : ℕ) (s : Running)
      → InTime e now
      → ((j : Text) (d : CacheEntry) (at : ℕ) → at ≤ now → Q (j, d) → Q (j, touch at d))
      → ((k : Text) (r : AuthResult) (made : ℕ)
          → Returns e now s k r made
          → Q (k, new_entry s.system.config made r))
      → All Q s.system.cache.cache
      → All Q (step e now s).system.cache.cache
  unfolding step register_provider evict_expired evict_cache_entry touch_cached
      finish_authentication Returns InTime
  step-All (registers name) now s in_time touched made h = h
  step-All (checks k) now s in_time touched made h = rw (check_cache-cache k now s.system).0 h
  step-All (touches k at) now s in_time touched made h =
      All-touch_entry Q k at s.system.cache (λ j d q. touched j d at in_time q) h
  step-All (evicts i) now s in_time touched made h = elim (Option-cases (get_elem? s.to_evict i)) [
    | inl nothing ↦ let goes : step (evicts i) now s ≡ s = ground arith in rw goes h
    | inr (k, found) ↦
        let goes : (step (evicts i) now s).system ≡ evict_expired k s.system = ground arith in
        rw goes (All-remove Q k s.system.cache.cache h)
  ]
  step-All (asks arrivals answers) now s in_time touched made h =
      rw (execute-cache arrivals answers s.system).0 h
  step-All (finishes k results at visits) now s in_time touched made h =
      let enabled = length (get_enabled_providers s.system) in
      elim (Option-cases (select_best_result s.system.config enabled results)) [
        | inl failed ↦
            let goes : (step (finishes k results at visits) now s).system.cache ≡ s.system.cache =
              ground arith in
            rw goes h
        | inr (r, chosen) ↦
            let goes : (step (finishes k results at visits) now s).system.cache
                ≡ cache_result s.system.config k r at now visits s.system.cache =
              ground arith in
            let returned : (finish_authentication k results at now visits s.system).0 ≡ inr r =
              ground arith in
            rw goes (
              All-cache_result Q s.system.config k r at now visits s.system.cache h
                (made k r at (refl, (refl, returned))))
      ]
