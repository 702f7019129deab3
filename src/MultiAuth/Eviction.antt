-- ===== src/MultiAuth/Eviction.antt =====
-- What evictLeastRecentlyUsed does to a cache whose entries were all accessed before.
use advanced_golang_tutorial.Prelude.{
  ℕ, ◌≤◌, ◌<◌, ◌≡◌, ◌≢◌, sym, ap, subst, ◌∙◌, true, false, List, [], ◌∷◌, none, some, arith,
  if◌then◌else◌, Bool-cases, List-cases, inl, inr, All, Text, same_text, same_text_refl,
  same_text_sym, same_text-eq, text_mem,
}
use advanced_golang_tutorial.MultiAuth.Cache.{
  AuthCache, CacheEntry, lookup, remove, find_oldest, evict_least_recently_used,
}
use advanced_golang_tutorial.MultiAuth.Entries.{All-lookup}
use advanced_golang_tutorial.MultiAuth.Oldest.{NotBefore, IsOldest, find_oldest-cases}

-- What the code relies on: the loop visits every key, no key is empty, and every access is earlier.
pub record IsEvictable (visits : List Text) (now : ℕ) (es : List (Text × CacheEntry)) : Type 0 where
  pub visited : All (λ entry. text_mem entry.0 visits ≡ true) es
  pub named : All (λ entry. entry.0 ≢ []) es
  pub earlier : All (λ entry. entry.1.last_access < now) es

All-text_mem :
    (Q : Text → Type 0) (ts : List Text) (t : Text) → All Q ts → text_mem t ts ≡ true → Q t
unfolding text_mem
All-text_mem Q [] t h e = cc
All-text_mem Q (s ∷ ss) t h e = elim (Bool-cases (same_text s t)) [
  | inl here ↦ subst Q (same_text-eq s t here) h.0
  | inr elsewhere ↦ All-text_mem Q ss t h.1 (ground arith)
]

-- The key of the entry that is evicted.
pub record Evicts (visits : List Text) (now : ℕ) (c : AuthCache) : Type 0 where
  pub key : Text
  pub entry : CacheEntry
  pub found : lookup key c.cache ≡ some entry
  pub removed : (evict_least_recently_used visits now c).cache ≡ remove key c.cache
  pub oldest :
      (j : Text) (d : CacheEntry) → lookup j c.cache ≡ some d → entry.last_access ≤ d.last_access

found-Evicts :
    (visits : List Text) (now : ℕ) (c : AuthCache)
    → IsEvictable visits now c.cache
    → IsOldest visits c.cache now (find_oldest visits c.cache ([], now))
    → Evicts visits now c
unfolding evict_least_recently_used
found-Evicts visits now c h o =
    let r = find_oldest visits c.cache ([], now) in
    let named : r.0 ≢ [] = All-lookup (λ entry. entry.0 ≢ []) r.0 c.cache o.entry h.named o.found in
    elim (List-cases r.0) [
      | inl empty ↦ elim (named empty) [ ]
      | inr (b, (bs, set)) ↦ record {
        key = r.0;
        entry = o.entry;
        found = o.found;
        removed = ground arith;
        oldest = λ j d there.
            let visited : text_mem j visits ≡ true =
              All-lookup (λ entry. text_mem entry.0 visits ≡ true) j c.cache d h.visited there in
            let later : r.1 ≤ d.last_access =
              All-text_mem (NotBefore c.cache r.1) visits j o.oldest visited d there in
            omega (arith, o.accessed);
      }
    ]

pub evict-Evicts :
    (visits : List Text) (now : ℕ) (c : AuthCache)
    → IsEvictable visits now c.cache
    → c.cache ≢ []
    → Evicts visits now c
unfolding lookup
evict-Evicts visits now c h filled = elim (find_oldest-cases visits c.cache [] now) [
  | inr o ↦ found-Evicts visits now c h o
  | inl (same, all) ↦ elim (List-cases c.cache) [
    | inl empty ↦ elim (filled empty) [ ]
    | inr ((k, d), (es, set)) ↦
        let present : lookup k c.cache ≡ some d = rw set (ground (arith, same_text_refl k)) in
        let visited : text_mem k visits ≡ true =
          All-lookup (λ entry. text_mem entry.0 visits ≡ true) k c.cache d h.visited present in
        let later : now ≤ d.last_access =
          All-text_mem (NotBefore c.cache now) visits k all visited d present in
        let earlier : d.last_access < now =
          All-lookup (λ entry. entry.1.last_access < now) k c.cache d h.earlier present in
        let never : ⊥ = omega arith in elim never [ ]
  ]
]

-- An entry with the key `i`, in front of the others.
lookup_first :
    (i j k : Text) (d : CacheEntry) (rest es : List (Text × CacheEntry))
    → lookup j rest ≡ (if same_text j k then none else lookup j es)
    → same_text i k ≡ false
    → lookup j ((i, d) ∷ rest) ≡ (if same_text j k then none else lookup j ((i, d) ∷ es))
unfolding lookup
lookup_first i j k d rest es h other = elim (Bool-cases (same_text i j)) [
  | inr elsewhere ↦ ground arith
  | inl here ↦
      let apart : same_text j k ≡ false =
        subst (λ x. same_text x k ≡ false) (same_text-eq i j here) other in
      ground arith
]

lookup-remove :
    (j k : Text) (es : List (Text × CacheEntry))
    → lookup j (remove k es) ≡ (if same_text j k then none else lookup j es)
unfolding lookup remove
lookup-remove j k [] = ground arith
lookup-remove j k ((i, d) ∷ es) = elim (Bool-cases (same_text i k)) [
  | inr other ↦
      let goes : remove k ((i, d) ∷ es) ≡ (i, d) ∷ remove k es = ground arith in
      rw goes (lookup_first i j k d (remove k es) es (lookup-remove j k es) other)
  | inl this ↦
      let goes : remove k ((i, d) ∷ es) ≡ remove k es = ground arith in
      let same : same_text j k ≡ same_text j i = ap (same_text j) (sym (same_text-eq i k this)) in
      let symmetric : same_text i j ≡ same_text j i = same_text_sym i j in
      rw goes (lookup-remove j k es ∙ ground arith)
]

-- An eviction takes one entry out, none was accessed before it, and the others stay.
pub evict-lookup :
    (visits : List Text) (now : ℕ) (c : AuthCache)
    → IsEvictable visits now c.cache
    → c.cache ≢ []
    → (k : Text) × ((d : CacheEntry) × ((lookup k c.cache ≡ some d)
          × (((j : Text) → NotBefore c.cache d.last_access j)
              × ((j : Text)
                  → lookup j (evict_least_recently_used visits now c).cache
                    ≡ (if same_text j k then none else lookup j c.cache)))))
evict-lookup visits now c h filled =
    let e = evict-Evicts visits now c h filled in
    (e.key, (e.entry, (e.found, (e.oldest, λ j. rw e.removed (lookup-remove j e.key c.cache)))))
