-- ===== src/MultiAuth/Places.antt =====
-- The places of a provider's first result and of the first among the fastest in a list.
use advanced_golang_tutorial.Prelude.{
  ◌≤◌, ◌<◌, ◌≡◌, refl, ap, true, false, List, [], ◌∷◌, ◌++◌, none, some, arith, ltb, Bool-cases,
  inl, inr, ◌⊎◌, All, Text, same_text,
}
use advanced_golang_tutorial.MultiAuth.Selection.{
  AuthResult, first_from, first_in_order, fastest_of,
}

pub record IsFirstFrom (name : Text) (rs : List AuthResult) (r : AuthResult) : Type 0 where
  pub before : List AuthResult
  pub after : List AuthResult
  pub parts : rs ≡ before ++ r ∷ after
  pub others_before : All (λ b. same_text b.provider name ≡ false) before
  pub from : same_text r.provider name ≡ true

abbrev pub IsNoneFrom : Text → List AuthResult → Type 0
unfolding same_text
IsNoneFrom name rs = All (λ r. same_text r.provider name ≡ false) rs

pub record IsFirstIn (names : List Text) (rs : List AuthResult) (r : AuthResult) : Type 0 where
  pub before : List Text
  pub name : Text
  pub after : List Text
  pub parts : names ≡ before ++ name ∷ after
  pub none_before : All (λ n. IsNoneFrom n rs) before
  pub first : IsFirstFrom name rs r

-- The first of the entries with the least response time.
pub record IsFastest (rs : List AuthResult) (r : AuthResult) : Type 0 where
  pub before : List AuthResult
  pub after : List AuthResult
  pub parts : rs ≡ before ++ r ∷ after
  pub slower_before : All (λ b. r.response_time < b.response_time) before
  pub no_faster_after : All (λ a. r.response_time ≤ a.response_time) after

pub first_from-cases :
    (name : Text) (rs : List AuthResult)
    → ((first_from name rs ≡ none) × IsNoneFrom name rs)
      ⊎ ((r : AuthResult) × ((first_from name rs ≡ some r) × IsFirstFrom name rs r))
unfolding first_from same_text
first_from-cases name [] = inl (refl, tt)
first_from-cases name (r ∷ rs) = elim (Bool-cases (same_text r.provider name)) [
  | inl here ↦ inr (
    r,
    (
      ground arith,
      record { before = []; after = rs; parts = refl; others_before = tt; from = here },
    ),
  )
  | inr elsewhere ↦ elim (first_from-cases name rs) [
    | inl (found, nowhere) ↦ inl (ground arith, (elsewhere, nowhere))
    | inr (x, (found, first)) ↦ inr (
      x,
      (
        ground arith,
        record {
          before = r ∷ first.before;
          after = first.after;
          parts = ap (◌∷◌ r) first.parts;
          others_before = (elsewhere, first.others_before);
          from = first.from;
        },
      ),
    )
  ]
]

pub first_in_order-cases :
    (names : List Text) (rs : List AuthResult)
    → ((first_in_order names rs ≡ none) × All (λ n. IsNoneFrom n rs) names)
      ⊎ ((r : AuthResult) × ((first_in_order names rs ≡ some r) × IsFirstIn names rs r))
unfolding first_in_order
first_in_order-cases [] rs = inl (refl, tt)
first_in_order-cases (name ∷ names) rs = elim (first_from-cases name rs) [
  | inr (r, (found, first)) ↦ inr (
    r,
    (
      ground arith,
      record {
        before = [];
        name = name;
        after = names;
        parts = refl;
        none_before = tt;
        first = first;
      },
    ),
  )
  | inl (found, nowhere) ↦ elim (first_in_order-cases names rs) [
    | inl (later, none_later) ↦ inl (ground arith, (nowhere, none_later))
    | inr (r, (later, f)) ↦ inr (
      r,
      (
        ground arith,
        record {
          before = name ∷ f.before;
          name = f.name;
          after = f.after;
          parts = ap (◌∷◌ name) f.parts;
          none_before = (nowhere, f.none_before);
          first = f.first;
        },
      ),
    )
  ]
]

IsFastest-later :
    (r : AuthResult) (rs : List AuthResult) (g : AuthResult)
    → IsFastest rs g
    → g.response_time < r.response_time
    → IsFastest (r ∷ rs) g
IsFastest-later r rs g f l = record {
  before = r ∷ f.before;
  after = f.after;
  parts = ap (◌∷◌ r) f.parts;
  slower_before = (l, f.slower_before);
  no_faster_after = f.no_faster_after;
}

IsFastest-head :
    (r : AuthResult) (rs : List AuthResult)
    → All (λ a. r.response_time ≤ a.response_time) rs
    → IsFastest (r ∷ rs) r
IsFastest-head r rs all = record {
  before = [];
  after = rs;
  parts = refl;
  slower_before = tt;
  no_faster_after = all;
}

-- The fastest one is the first of all, or it is among the others and faster.
fastest_of-cases :
    (f : AuthResult) (rs : List AuthResult)
    → ((fastest_of f rs ≡ f) × All (λ a. f.response_time ≤ a.response_time) rs)
      ⊎ (IsFastest rs (fastest_of f rs) × (fastest_of f rs).response_time < f.response_time)
unfolding fastest_of
fastest_of-cases f [] = inl (refl, tt)
fastest_of-cases f (r ∷ rs) = elim (Bool-cases (ltb r.response_time f.response_time)) [
  | inl faster ↦
      let goes : fastest_of f (r ∷ rs) ≡ fastest_of r rs = ground arith in
      let less : r.response_time < f.response_time = ground arith in
      rw goes (elim (fastest_of-cases r rs) [
        | inl (same, all) ↦ rw same (inr (IsFastest-head r rs all, less))
        | inr (fastest, g) ↦ inr (IsFastest-later r rs (fastest_of r rs) fastest g, omega arith)
      ])
  | inr slower ↦
      let goes : fastest_of f (r ∷ rs) ≡ fastest_of f rs = ground arith in
      let more : f.response_time ≤ r.response_time = ground arith in
      rw goes (elim (fastest_of-cases f rs) [
        | inl (same, all) ↦ inl (same, (more, all))
        | inr (fastest, g) ↦ inr (IsFastest-later r rs (fastest_of f rs) fastest (omega arith), g)
      ])
]

pub fastest_of-IsFastest :
    (f : AuthResult) (rs : List AuthResult) → IsFastest (f ∷ rs) (fastest_of f rs)
fastest_of-IsFastest f rs = elim (fastest_of-cases f rs) [
  | inl (same, all) ↦ rw same (IsFastest-head f rs all)
  | inr (fastest, g) ↦ IsFastest-later f rs (fastest_of f rs) fastest g
]
