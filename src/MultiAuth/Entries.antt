-- ===== src/MultiAuth/Entries.antt =====
-- The entries of the cache: what holds of all of them after the operations on it.
use advanced_golang_tutorial.Prelude.{
  ℕ, ◌≡◌, subst, List, [], ◌∷◌, some, arith, leb, ◌==◌, Bool-cases, Option-cases, inl, inr, All,
  length, Text, same_text, same_text-eq,
}
use advanced_golang_tutorial.MultiAuth.Selection.{AuthConfig, AuthResult}
use advanced_golang_tutorial.MultiAuth.Cache.{
  AuthCache, CacheEntry, lookup, insert, remove, touch, find_oldest, evict_least_recently_used,
  touch_entry, new_entry, cache_result,
}

module _ (Q : Text × CacheEntry → Type 0) where
  All-insert :
      (k : Text) (e : CacheEntry) (es : List (Text × CacheEntry))
      → All Q es
      → Q (k, e)
      → All Q (insert k e es)
  unfolding insert
  All-insert k e [] h q = (q, tt)
  All-insert k e ((j, d) ∷ es) h q = elim (Bool-cases (same_text j k)) [
    | inl here ↦
        let goes : insert k e ((j, d) ∷ es) ≡ (k, e) ∷ es = ground arith in rw goes (q, h.1)
    | inr elsewhere ↦
        let goes : insert k e ((j, d) ∷ es) ≡ (j, d) ∷ insert k e es = ground arith in
        rw goes (h.0, All-insert k e es h.1 q)
  ]

  pub All-remove : (k : Text) (es : List (Text × CacheEntry)) → All Q es → All Q (remove k es)
  unfolding remove
  All-remove k [] h = tt
  All-remove k ((j, d) ∷ es) h = elim (Bool-cases (same_text j k)) [
    | inl here ↦
        let goes : remove k ((j, d) ∷ es) ≡ remove k es = ground arith in
        rw goes (All-remove k es h.1)
    | inr elsewhere ↦
        let goes : remove k ((j, d) ∷ es) ≡ (j, d) ∷ remove k es = ground arith in
        rw goes (h.0, All-remove k es h.1)
  ]

  pub All-lookup :
      (k : Text) (es : List (Text × CacheEntry)) (e : CacheEntry)
      → All Q es
      → lookup k es ≡ some e
      → Q (k, e)
  unfolding lookup
  All-lookup k [] e h found = cc
  All-lookup k ((j, d) ∷ es) e h found = elim (Bool-cases (same_text j k)) [
    | inl here ↦ let same : (j, d) ≡ (k, e) = ground (arith, same_text-eq j k) in subst Q same h.0
    | inr elsewhere ↦ All-lookup k es e h.1 (ground arith)
  ]

  pub All-evict :
      (visits : List Text) (now : ℕ) (c : AuthCache)
      → All Q c.cache
      → All Q (evict_least_recently_used visits now c).cache
  unfolding evict_least_recently_used
  All-evict visits now c h =
      let oldest = (find_oldest visits c.cache ([], now)).0 in
      elim (Bool-cases (length oldest == 0)) [
        | inl nothing ↦
            let goes : evict_least_recently_used visits now c ≡ c = ground arith in rw goes h
        | inr something ↦
            let goes : (evict_least_recently_used visits now c).cache ≡ remove oldest c.cache =
              ground arith in
            rw goes (All-remove oldest c.cache h)
      ]

  pub All-touch_entry :
      (k : Text) (now : ℕ) (c : AuthCache)
      → ((j : Text) (d : CacheEntry) → Q (j, d) → Q (j, touch now d))
      → All Q c.cache
      → All Q (touch_entry k now c).cache
  unfolding touch_entry
  All-touch_entry k now c touched h = elim (Option-cases (lookup k c.cache)) [
    | inl absent ↦ let goes : touch_entry k now c ≡ c = ground arith in rw goes h
    | inr (e, found) ↦
        let goes : (touch_entry k now c).cache ≡ insert k (touch now e) c.cache = ground arith in
        rw goes
          (All-insert k (touch now e) c.cache h (touched k e (All-lookup k c.cache e h found)))
  ]

  pub All-cache_result :
      (cfg : AuthConfig) (k : Text) (r : AuthResult) (made now : ℕ) (visits : List Text)
      (c : AuthCache)
      → All Q c.cache
      → Q (k, new_entry cfg made r)
      → All Q (cache_result cfg k r made now visits c).cache
  unfolding cache_result
  All-cache_result cfg k r made now visits c h q = elim (Bool-cases (cfg.cache_expiration == 0)) [
    | inl off ↦ let goes : cache_result cfg k r made now visits c ≡ c = ground arith in rw goes h
    | inr on ↦ elim (Bool-cases (leb c.max_size (length c.cache))) [
      | inl full ↦
          let room = evict_least_recently_used visits now c in
          let goes : (cache_result cfg k r made now visits c).cache
              ≡ insert k (new_entry cfg made r) room.cache =
            ground arith in
          rw goes (All-insert k (new_entry cfg made r) room.cache (All-evict visits now c h) q)
      | inr free ↦
          let goes : (cache_result cfg k r made now visits c).cache
              ≡ insert k (new_entry cfg made r) c.cache =
            ground arith in
          rw goes (All-insert k (new_entry cfg made r) c.cache h q)
    ]
  ]
