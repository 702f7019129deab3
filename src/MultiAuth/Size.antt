-- ===== src/MultiAuth/Size.antt =====
-- The number of the entries in the cache.
use advanced_golang_tutorial.Prelude.{
  ℕ, suc, ◌≤◌, ◌<◌, ◌≡◌, ap, List, [], ◌∷◌, some, arith, leb, ◌==◌, Bool-cases, Option-cases,
  List-cases, inl, inr, length, Text, same_text, if◌then◌else◌,
}
use advanced_golang_tutorial.MultiAuth.Selection.{AuthConfig, AuthResult}
use advanced_golang_tutorial.MultiAuth.Cache.{
  AuthCache, CacheEntry, lookup, insert, remove, touch, find_oldest, evict_least_recently_used,
  touch_entry, evict_cache_entry, new_entry, cache_result,
}
use advanced_golang_tutorial.MultiAuth.Eviction.{IsEvictable, evict-Evicts}

length-remove : (k : Text) (es : List (Text × CacheEntry)) → length (remove k es) ≤ length es
unfolding remove
length-remove k [] = omega arith
length-remove k ((j, d) ∷ es) = ground (arith, length-remove k es)

length-remove_present :
    (k : Text) (es : List (Text × CacheEntry)) (e : CacheEntry)
    → lookup k es ≡ some e
    → length (remove k es) < length es
unfolding remove lookup
length-remove_present k [] e found = cc
length-remove_present k ((j, d) ∷ es) e found = elim (Bool-cases (same_text j k)) [
  | inl here ↦ ground (arith, length-remove k es)
  | inr elsewhere ↦
      let later : lookup k es ≡ some e = ground arith in
      ground (arith, length-remove_present k es e later)
]

length-insert :
    (k : Text) (e : CacheEntry) (es : List (Text × CacheEntry))
    → length (insert k e es) ≤ suc (length es)
unfolding insert
length-insert k e [] = omega arith
length-insert k e ((j, d) ∷ es) = ground (arith, length-insert k e es)

length-insert_present :
    (k : Text) (e d : CacheEntry) (es : List (Text × CacheEntry))
    → lookup k es ≡ some d
    → length (insert k e es) ≡ length es
unfolding insert lookup
length-insert_present k e d [] found = cc
length-insert_present k e d ((j, c) ∷ es) found = elim (Bool-cases (same_text j k)) [
  | inl here ↦ ground arith
  | inr elsewhere ↦
      let later : lookup k es ≡ some d = ground arith in
      ground (arith, length-insert_present k e d es later)
]

-- At most one entry where the limit is 0, and no more than the limit where it is not.
abbrev pub Fits : AuthCache → Type 0
Fits c = length c.cache ≤ (if c.max_size == 0 then 1 else c.max_size)

pub Fits-touch_entry : (k : Text) (now : ℕ) (c : AuthCache) → Fits c → Fits (touch_entry k now c)
unfolding touch_entry
Fits-touch_entry k now c h = elim (Option-cases (lookup k c.cache)) [
  | inl absent ↦ ground (arith, h)
  | inr (e, found) ↦
      let same = length-insert_present k (touch now e) e c.cache found in ground (arith, h, same)
]

pub Fits-evict_entry : (k : Text) (c : AuthCache) → Fits c → Fits (evict_cache_entry k c)
unfolding evict_cache_entry
Fits-evict_entry k c h = omega (arith, h, length-remove k c.cache)

evict-max_size :
    (visits : List Text) (now : ℕ) (c : AuthCache)
    → (evict_least_recently_used visits now c).max_size ≡ c.max_size
unfolding evict_least_recently_used
evict-max_size visits now c = ground arith

length-evict :
    (visits : List Text) (now : ℕ) (c : AuthCache)
    → length (evict_least_recently_used visits now c).cache ≤ length c.cache
unfolding evict_least_recently_used
length-evict visits now c =
    let oldest = (find_oldest visits c.cache ([], now)).0 in
    ground (arith, length-remove oldest c.cache)

-- After an eviction there is room.
evict-length :
    (visits : List Text) (now : ℕ) (c : AuthCache)
    → IsEvictable visits now c.cache
    → Fits c
    → suc (length (evict_least_recently_used visits now c).cache)
      ≤ (if c.max_size == 0 then 1 else c.max_size)
evict-length visits now c h fits = elim (List-cases c.cache) [
  | inl empty ↦
      let none_left = ap length empty in
      let no_more = length-evict visits now c in ground (arith, none_left, no_more)
  | inr (x, (xs, set)) ↦
      let e = evict-Evicts visits now c h (λ empty. cc) in
      let less = length-remove_present e.key c.cache e.entry e.found in
      rw e.removed (omega (arith, less, fits))
]

pub Fits-cache_result :
    (cfg : AuthConfig) (k : Text) (r : AuthResult) (made now : ℕ) (visits : List Text)
    (c : AuthCache)
    → IsEvictable visits now c.cache
    → Fits c
    → Fits (cache_result cfg k r made now visits c)
unfolding cache_result
Fits-cache_result cfg k r made now visits c h fits =
    let e = new_entry cfg made r in
    elim (Bool-cases (cfg.cache_expiration == 0)) [
      | inl off ↦
          let goes : cache_result cfg k r made now visits c ≡ c = ground arith in rw goes fits
      | inr on ↦ elim (Bool-cases (leb c.max_size (length c.cache))) [
        | inl full ↦
            let room = evict_least_recently_used visits now c in
            let goes : cache_result cfg k r made now visits c
                ≡ record room { cache = insert k e room.cache } =
              ground arith in
            let limit : room.max_size ≡ c.max_size = evict-max_size visits now c in
            rw goes (
              rw limit
                (omega (arith, length-insert k e room.cache, evict-length visits now c h fits)))
        | inr free ↦
            let goes : cache_result cfg k r made now visits c
                ≡ record c { cache = insert k e c.cache } =
              ground arith in
            let more = length-insert k e c.cache in rw goes (ground (arith, more, free))
      ]
    ]
