-- ===== src/MultiAuth/Limit.antt =====
-- The limit of the cache in the runs whose instants strictly ascend.
use advanced_golang_tutorial.Prelude.{
  ℕ, ◌≤◌, ◌<◌, ◌≡◌, ◌≢◌, refl, ap, subst, ◌∙◌, true, List, [], arith, ◌==◌, Option-cases, inl, inr,
  All, All-mono, length, Text, if◌then◌else◌, get_elem?, text_mem,
}
use advanced_golang_tutorial.MultiAuth.Selection.{AuthConfig, AuthResult, select_best_result}
use advanced_golang_tutorial.MultiAuth.Cache.{
  AuthCache, CacheEntry, touch, evict_least_recently_used, touch_entry, evict_cache_entry,
  new_entry, cache_result,
}
use advanced_golang_tutorial.MultiAuth.{
  register_provider, evict_expired, touch_cached, finish_authentication, get_enabled_providers,
}
use advanced_golang_tutorial.MultiAuth.Runs.{
  Event, registers, checks, evicts, touches, asks, finishes, Running, InTime, step, init, Run,
  starts, continues,
}
use advanced_golang_tutorial.MultiAuth.Steps.{Returns, check_cache-cache, execute-cache, step-All}
use advanced_golang_tutorial.MultiAuth.Eviction.{IsEvictable}
use advanced_golang_tutorial.MultiAuth.Size.{
  Fits, Fits-touch_entry, Fits-evict_entry, Fits-cache_result,
}

-- The hash of a call that ends is not empty, and its loop over the cache visits every key.
unfoldable pub IsVisited : Event → Running → Type 0
IsVisited (finishes k results made visits) s =
    (k ≢ []) × All (λ entry. text_mem entry.0 visits ≡ true) s.system.cache.cache
IsVisited e s = Unit

unfoldable pub IsOrderly : {cfg : AuthConfig} {s : Running} {t : ℕ} → Run cfg s t → Type 0
unfolding IsVisited
IsOrderly starts = Unit
IsOrderly (continues {s} {before} e now run later in_time) =
    (before < now) × (IsVisited e s × IsOrderly run)

abbrev IsPast : ℕ → Text × CacheEntry → Type 0
IsPast t entry = (entry.0 ≢ []) × (entry.1.last_access ≤ t)

new_entry-IsPast :
    (e : Event) (now : ℕ) (s : Running) (k : Text) (r : AuthResult) (made : ℕ)
    → InTime e now
    → IsVisited e s
    → Returns e now s k r made
    → IsPast now (k, new_entry s.system.config made r)
unfolding InTime IsVisited Returns new_entry
new_entry-IsPast (finishes j results at visits) now s k r made in_time visited (same, (when, o)) =
    (subst (λ x. x ≢ []) same visited.0, omega (arith, in_time, when))
new_entry-IsPast e now s k r made in_time visited never = elim never [ ]

run-IsPast :
    {cfg : AuthConfig} {s : Running} {t : ℕ} (run : Run cfg s t)
    → IsOrderly run
    → All (IsPast t) s.system.cache.cache
unfolding init IsOrderly touch
run-IsPast starts h = tt
run-IsPast (continues {s} {before} e now run later in_time) (ascends, (visited, orderly)) =
    let earlier : All (IsPast now) s.system.cache.cache =
      All-mono (IsPast before) (IsPast now) (λ entry p. (p.0, omega (arith, p.1)))
        s.system.cache.cache (run-IsPast run orderly) in
    step-All (IsPast now) e now s in_time (λ j d at when p. (p.0, when))
      (λ k r made returned. new_entry-IsPast e now s k r made in_time visited returned) earlier

Fits-step :
    (e : Event) (now t : ℕ) (s : Running)
    → t < now
    → IsVisited e s
    → All (IsPast t) s.system.cache.cache
    → Fits s.system.cache
    → Fits (step e now s).system.cache
unfolding step IsVisited register_provider evict_expired touch_cached finish_authentication
Fits-step (registers name) now t s ascends visited past fits = fits
Fits-step (checks k) now t s ascends visited past fits =
    rw (check_cache-cache k now s.system).0 fits
Fits-step (touches k at) now t s ascends visited past fits =
    Fits-touch_entry k at s.system.cache fits
Fits-step (evicts i) now t s ascends visited past fits =
    elim (Option-cases (get_elem? s.to_evict i)) [
      | inl nothing ↦ let goes : step (evicts i) now s ≡ s = ground arith in rw goes fits
      | inr (k, found) ↦
          let goes : (step (evicts i) now s).system ≡ evict_expired k s.system = ground arith in
          rw goes (Fits-evict_entry k s.system.cache fits)
    ]
Fits-step (asks arrivals answers) now t s ascends visited past fits =
    rw (execute-cache arrivals answers s.system).0 fits
Fits-step (finishes k results at visits) now t s ascends visited past fits =
    let enabled = length (get_enabled_providers s.system) in
    let evictable : IsEvictable visits now s.system.cache.cache = record {
      visited = visited.1;
      named =
          All-mono (IsPast t) (λ entry. entry.0 ≢ []) (λ entry p. p.0) s.system.cache.cache past;
      earlier =
          All-mono (IsPast t) (λ entry. entry.1.last_access < now) (λ entry p. omega (arith, p.1))
            s.system.cache.cache past;
    } in
    elim (Option-cases (select_best_result s.system.config enabled results)) [
      | inl failed ↦
          let goes : (step (finishes k results at visits) now s).system.cache ≡ s.system.cache =
            ground arith in
          rw goes fits
      | inr (r, chosen) ↦
          let goes : (step (finishes k results at visits) now s).system.cache
              ≡ cache_result s.system.config k r at now visits s.system.cache =
            ground arith in
          rw goes
            (Fits-cache_result s.system.config k r at now visits s.system.cache evictable fits)
    ]

cache_result-max_size :
    (cfg : AuthConfig) (k : Text) (r : AuthResult) (made now : ℕ) (visits : List Text)
    (c : AuthCache)
    → (cache_result cfg k r made now visits c).max_size ≡ c.max_size
unfolding cache_result evict_least_recently_used
cache_result-max_size cfg k r made now visits c = ground arith

touch_entry-max_size :
    (k : Text) (now : ℕ) (c : AuthCache) → (touch_entry k now c).max_size ≡ c.max_size
unfolding touch_entry
touch_entry-max_size k now c = ground arith

step-max_size :
    (e : Event) (now : ℕ) (s : Running)
    → (step e now s).system.cache.max_size ≡ s.system.cache.max_size
unfolding step register_provider evict_expired touch_cached finish_authentication evict_cache_entry
step-max_size (registers name) now s = refl
step-max_size (checks k) now s = ap (λ c. c.max_size) (check_cache-cache k now s.system).0
step-max_size (touches k at) now s = touch_entry-max_size k at s.system.cache
step-max_size (evicts i) now s = ground arith
step-max_size (asks arrivals answers) now s =
    ap (λ c. c.max_size) (execute-cache arrivals answers s.system).0
step-max_size (finishes k results at visits) now s =
    let kept : (r : AuthResult)
        → (cache_result s.system.config k r at now visits s.system.cache).max_size
          ≡ s.system.cache.max_size =
      λ r. cache_result-max_size s.system.config k r at now visits s.system.cache in
    ground (arith, kept)

run-max_size :
    {cfg : AuthConfig} {s : Running} {t : ℕ}
    → Run cfg s t
    → s.system.cache.max_size ≡ cfg.max_cache_size
unfolding init
run-max_size starts = refl
run-max_size (continues {s} e now run later in_time) = step-max_size e now s ∙ run-max_size run

run-Fits :
    {cfg : AuthConfig} {s : Running} {t : ℕ} (run : Run cfg s t)
    → IsOrderly run
    → Fits s.system.cache
unfolding init IsOrderly
run-Fits starts h = omega arith
run-Fits (continues {s} {before} e now run later in_time) (ascends, (visited, orderly)) =
    Fits-step e now before s ascends visited (run-IsPast run orderly) (run-Fits run orderly)

-- In a run of which every event happens at a later instant than the one before, in which no hash of
-- a token is empty and each loop over the cache visits all its keys, the cache holds no more entries
-- than MaxCacheSize, or one where MaxCacheSize is 0. The instant of an eviction is the one at which
-- it reads the clock, so no entry is touched between that and its loop in such a run.
pub run-size :
    {cfg : AuthConfig} {s : Running} {t : ℕ} (run : Run cfg s t)
    → IsOrderly run
    → length s.system.cache.cache ≤ (if cfg.max_cache_size == 0 then 1 else cfg.max_cache_size)
run-size {cfg} {s} run h =
    subst (λ n. length s.system.cache.cache ≤ (if n == 0 then 1 else n)) (run-max_size run)
      (run-Fits run h)
