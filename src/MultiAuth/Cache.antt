-- ===== src/MultiAuth/Cache.antt =====
-- The cache of the results, AuthCache with the operations on it. `hash_token` is a parameter: the
-- first sixteen digits of the token's SHA-256.
use advanced_golang_tutorial.Prelude.{
  ℕ, ◌+◌, List, [], ◌∷◌, Option, none, some, if◌then◌else◌, ltb, leb, ◌==◌, length, add_i64, Text,
  same_text,
}
use advanced_golang_tutorial.MultiAuth.Selection.{AuthResult, AuthConfig}

pub record CacheEntry : Type 0 where
  pub result : AuthResult
  pub expires_at : ℕ
  pub access_count : ℕ
  pub last_access : ℕ

pub record AuthCache : Type 0 where
  pub cache : List (Text × CacheEntry)
  pub max_size : ℕ
  pub evictions : ℕ

unfoldable pub touch : ℕ → CacheEntry → CacheEntry
touch now e = record e { access_count = add_i64 e.access_count 1; last_access = now }

unfoldable pub lookup : Text → List (Text × CacheEntry) → Option CacheEntry
unfolding same_text
lookup k [] = none
lookup k ((j, e) ∷ es) = let rest = lookup k es in if same_text j k then some e else rest

unfoldable pub remove : Text → List (Text × CacheEntry) → List (Text × CacheEntry)
unfolding same_text
remove k [] = []
remove k ((j, e) ∷ es) = let rest = remove k es in if same_text j k then rest else (j, e) ∷ rest

unfoldable pub insert : Text → CacheEntry → List (Text × CacheEntry) → List (Text × CacheEntry)
unfolding same_text
insert k e [] = (k, e) ∷ []
insert k e ((j, d) ∷ es) =
    let rest = insert k e es in if same_text j k then (k, e) ∷ es else (j, d) ∷ rest

-- The loop of evictLeastRecentlyUsed, over the keys in the order in which it comes by them.
unfoldable pub find_oldest : List Text → List (Text × CacheEntry) → Text × ℕ → Text × ℕ
unfolding lookup
find_oldest [] es oldest = oldest
find_oldest (k ∷ ks) es (oldest_key, oldest_time) = find_oldest ks es (elim (lookup k es) [
  | none ↦ (oldest_key, oldest_time)
  | some e ↦ if ltb e.last_access oldest_time then (k, e.last_access) else (oldest_key, oldest_time)
])

unfoldable pub evict_least_recently_used : List Text → ℕ → AuthCache → AuthCache
unfolding find_oldest remove
evict_least_recently_used visits now c =
    let (oldest_key, oldest_time) = find_oldest visits c.cache ([], now) in
    if length oldest_key == 0
    then c
    else record c { cache = remove oldest_key c.cache; evictions = add_i64 c.evictions 1 }

unfoldable pub evict_cache_entry : Text → AuthCache → AuthCache
unfolding remove
evict_cache_entry k c = record c { cache = remove k c.cache; evictions = add_i64 c.evictions 1 }

pub data Lookup : Type 0 where
  missed : Lookup
  expired : Lookup
  hit : AuthResult → Lookup

-- checkCache up to its eviction of an entry that is past its time or its touch of one that is not:
-- the reading of the map under the lock, and the test.
unfoldable pub look_up : Text → ℕ → AuthCache → Lookup
unfolding lookup
look_up k now c = elim (lookup k c.cache) [
  | none ↦ missed
  | some e ↦ if ltb e.expires_at now then expired else hit e.result
]

-- The touch of the entry that is stored under the key, which is done without the lock.
unfoldable pub touch_entry : Text → ℕ → AuthCache → AuthCache
unfolding lookup touch insert
touch_entry k now c = elim (lookup k c.cache) [
  | none ↦ c
  | some e ↦ record c { cache = insert k (touch now e) c.cache }
]

-- The entry that cacheResult makes at the instant `made`.
unfoldable pub new_entry : AuthConfig → ℕ → AuthResult → CacheEntry
new_entry cfg made r = record {
  result = r;
  expires_at =
      let expires_at = made + cfg.cache_expiration in
      if r.expires_at == 0
      then expires_at
      else if ltb r.expires_at expires_at
      then r.expires_at
      else expires_at;
  access_count = 1;
  last_access = made;
}

-- The entry is made before the lock is taken, at the instant `now`.
unfoldable pub cache_result :
    AuthConfig → Text → AuthResult → ℕ → ℕ → List Text → AuthCache → AuthCache
unfolding new_entry evict_least_recently_used insert
cache_result cfg k r made now visits c =
    if cfg.cache_expiration == 0
    then c
    else let room =
        if leb c.max_size (length c.cache) then evict_least_recently_used visits now c else c in
      record room { cache = insert k (new_entry cfg made r) room.cache }
