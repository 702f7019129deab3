-- ===== src/MultiAuth/Oldest.antt =====
-- The entry that evictLeastRecentlyUsed finds, and the sizes before and after the operations.
use advanced_golang_tutorial.Prelude.{
  ℕ, ◌≤◌, ◌<◌, ◌≡◌, refl, List, [], ◌∷◌, some, arith, ltb, Bool-cases, Option-cases, inl, inr, ◌⊎◌,
  All, Text,
}
use advanced_golang_tutorial.MultiAuth.Cache.{CacheEntry, lookup, find_oldest}

-- No entry with the key `v` was accessed before the instant `t`.
abbrev pub NotBefore : List (Text × CacheEntry) → ℕ → Text → Type 0
NotBefore es t v = (d : CacheEntry) → lookup v es ≡ some d → t ≤ d.last_access

-- An entry that is older than `t` and than all that the loop has visited.
pub record IsOldest (visits : List Text) (es : List (Text × CacheEntry)) (t : ℕ) (r : Text × ℕ)
    : Type 0 where
  pub entry : CacheEntry
  pub found : lookup r.0 es ≡ some entry
  pub accessed : entry.last_access ≡ r.1
  pub older : r.1 < t
  pub oldest : All (NotBefore es r.1) visits

pub find_oldest-cases :
    (visits : List Text) (es : List (Text × CacheEntry)) (k : Text) (t : ℕ)
    → ((find_oldest visits es (k, t) ≡ (k, t)) × All (NotBefore es t) visits)
      ⊎ IsOldest visits es t (find_oldest visits es (k, t))
unfolding find_oldest
find_oldest-cases [] es k t = inl (refl, tt)
find_oldest-cases (v ∷ vs) es k t = elim (Option-cases (lookup v es)) [
  | inl absent ↦
      let goes : find_oldest (v ∷ vs) es (k, t) ≡ find_oldest vs es (k, t) = ground arith in
      let here : (x : ℕ) → NotBefore es x v = λ x d found. cc in
      rw goes (elim (find_oldest-cases vs es k t) [
        | inl (same, all) ↦ inl (same, (here t, all))
        | inr o ↦ inr (record {
          entry = o.entry;
          found = o.found;
          accessed = o.accessed;
          older = o.older;
          oldest = (here (find_oldest vs es (k, t)).1, o.oldest);
        })
      ])
  | inr (e, present) ↦
      let here : (x : ℕ) → x ≤ e.last_access → NotBefore es x v =
        λ x l d found. let same : d ≡ e = cc in ground arith in
      elim (Bool-cases (ltb e.last_access t)) [
        | inl older ↦
            let goes : find_oldest (v ∷ vs) es (k, t) ≡ find_oldest vs es (v, e.last_access) =
              ground arith in
            let less : e.last_access < t = ground arith in
            rw goes (elim (find_oldest-cases vs es v e.last_access) [
              | inl (same, all) ↦ rw same (
                  inr (record {
                    entry = e;
                    found = present;
                    accessed = refl;
                    older = less;
                    oldest = (here e.last_access (omega arith), all);
                  }))
              | inr o ↦ inr (record {
                entry = o.entry;
                found = o.found;
                accessed = o.accessed;
                older = omega (arith, o.older);
                oldest = (
                  here (find_oldest vs es (v, e.last_access)).1 (omega (arith, o.older)),
                  o.oldest,
                );
              })
            ])
        | inr not_older ↦
            let goes : find_oldest (v ∷ vs) es (k, t) ≡ find_oldest vs es (k, t) = ground arith in
            let more : t ≤ e.last_access = ground arith in
            rw goes (elim (find_oldest-cases vs es k t) [
              | inl (same, all) ↦ inl (same, (here t more, all))
              | inr o ↦ inr (record {
                entry = o.entry;
                found = o.found;
                accessed = o.accessed;
                older = o.older;
                oldest = (here (find_oldest vs es (k, t)).1 (omega (arith, o.older)), o.oldest);
              })
            ])
      ]
]
