-- ===== src/Fallback/Successes.antt =====
-- Lists of successes.
use advanced_golang_tutorial.Prelude.{
  ℕ, zero, suc, ◌<◌, ◌≡◌, refl, ap, true, not, List, [], ◌∷◌, ◌++◌, arith, length, count_if, All,
}
use advanced_golang_tutorial.Fallback.Sliding.{RequestResult}

abbrev pub IsSuccess : RequestResult → Type 0
IsSuccess r = r.success ≡ true

pub split_at_index :
    (xs : List RequestResult) (i : ℕ)
    → i < length xs
    → (before : List RequestResult) × ((x : RequestResult) × ((after : List RequestResult) × ((xs
              ≡ before ++ x ∷ after)
            × (length before ≡ i))))
split_at_index [] i h = let never : ⊥ = omega arith in elim never [ ]
split_at_index (x ∷ xs) zero h = ([], (x, (xs, (refl, refl))))
split_at_index (x ∷ xs) (suc i) h =
    let (before, (y, (after, (parts, l)))) = split_at_index xs i (omega arith) in
    (x ∷ before, (y, (after, (ap (◌∷◌ x) parts, omega arith))))

pub count-successes :
    (rs : List RequestResult) → All IsSuccess rs → count_if (λ r. not r.success) rs ≡ 0
count-successes [] h = refl
count-successes (r ∷ rs) h = ground (arith, h.0, count-successes rs h.1)
