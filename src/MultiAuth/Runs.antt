-- ===== src/MultiAuth/Runs.antt =====
-- Goroutines that authenticate at the same time, one critical section of the cache's lock or one
-- touch of an entry at a time. Between those that a call goes through there may be those of others.
-- The asking of the providers and the collection of their answers is one step.
use advanced_golang_tutorial.Prelude.{
  ℕ, ◌≤◌, List, [], ◌∷◌, ◌++◌, none, some, get_elem?, erase_idx, Text,
}
use advanced_golang_tutorial.MultiAuth.Selection.{AuthConfig, ParallelAuthResult}
use advanced_golang_tutorial.MultiAuth.Cache.{missed, expired, hit}
use advanced_golang_tutorial.MultiAuth.{
  MultiAuthSystem, Answer, new_multi_auth_system, register_provider, check_cache, evict_expired,
  touch_cached, execute_parallel_auth, finish_authentication,
}

-- With the hashes of the entries that goroutines have found expired and are about to evict.
pub record Running : Type 0 where
  pub system : MultiAuthSystem
  pub to_evict : List Text

-- `touches` is a touch at the instant `at` of the entry that the map holds for a key, at any time
-- after that instant; one of an entry that the map holds no more changes nothing, and is no event.
-- `finishes` is a call whose answers have arrived and whose entry was made at the instant `made`.
pub data Event : Type 0 where
  registers : Text → Event
  checks : Text → Event
  evicts : ℕ → Event
  touches : Text → (at : ℕ) → Event
  asks : List Text → (Text → Answer) → Event
  finishes : Text → List ParallelAuthResult → (made : ℕ) → List Text → Event

unfoldable pub step : Event → ℕ → Running → Running
unfolding register_provider check_cache evict_expired touch_cached execute_parallel_auth
    finish_authentication
step (registers name) now s = record s { system = register_provider name s.system }
step (checks k) now s =
    let (found, system) = check_cache k now s.system in
    record s {
      system = system;
      to_evict = elim found [
        | missed ↦ s.to_evict
        | expired ↦ s.to_evict ++ k ∷ []
        | hit r ↦ s.to_evict
      ];
    }
step (evicts i) now s = elim (get_elem? s.to_evict i) [
  | none ↦ s
  | some k ↦ record s { system = evict_expired k s.system; to_evict = erase_idx s.to_evict i }
]
step (touches k at) now s = record s { system = touch_cached k at s.system }
step (asks arrivals answers) now s = record s {
  system = (execute_parallel_auth arrivals answers s.system).1;
}
step (finishes k results made visits) now s = record s {
  system = (finish_authentication k results made now visits s.system).1;
}

-- An entry is made before it is stored, and a touch reads the clock before it stores the time.
unfoldable pub InTime : Event → ℕ → Type 0
InTime (finishes k results made visits) now = made ≤ now
InTime (touches k at) now = at ≤ now
InTime e now = Unit

unfoldable pub init : AuthConfig → Running
unfolding new_multi_auth_system
init cfg = record { system = new_multi_auth_system cfg; to_evict = [] }

-- The states of the runs from the start, with the instant of the last event.
pub data Run (cfg : AuthConfig) : Running → ℕ → Type 0 where
  starts : Run cfg (init cfg) 0
  continues :
      {s : Running} {before : ℕ} (e : Event) (now : ℕ)
      → Run cfg s before
      → before ≤ now
      → InTime e now
      → Run cfg (step e now s) now
