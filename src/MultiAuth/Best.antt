-- ===== src/MultiAuth/Best.antt =====
-- What selectBestResult chooses, described by the places in the list of the successes.
use advanced_golang_tutorial.Prelude.{
  ℕ, ◌≡◌, ◌≢◌, true, false, List, [], ◌∷◌, none, some, arith, ◌==◌, Bool-cases, List-cases, inl,
  inr, ◌⊎◌, All, length,
}
use advanced_golang_tutorial.MultiAuth.Selection.{
  AuthConfig, AuthResult, ParallelAuthResult, success_results, first_from, fastest_of, preferred,
  choose, select_best_result,
}
use advanced_golang_tutorial.MultiAuth.Places.{
  IsFirstFrom, IsNoneFrom, IsFirstIn, IsFastest, first_from-cases, first_in_order-cases,
  fastest_of-IsFastest,
}

-- The default provider's first success; without one, that of the first provider in the fallback
-- order that has one; without any of these, the first among the fastest.
abbrev pub IsChosen : AuthConfig → List AuthResult → AuthResult → Type 0
IsChosen cfg rs r =
    ((cfg.default_provider ≢ []) × IsFirstFrom cfg.default_provider rs r)
    ⊎ (((cfg.default_provider ≡ []) ⊎ IsNoneFrom cfg.default_provider rs)
        × (IsFirstIn cfg.fallback_order rs r
            ⊎ (All (λ n. IsNoneFrom n rs) cfg.fallback_order × IsFastest rs r)))

preferred-cases :
    (cfg : AuthConfig) (rs : List AuthResult)
    → ((preferred cfg rs ≡ none)
        × ((cfg.default_provider ≡ []) ⊎ IsNoneFrom cfg.default_provider rs))
      ⊎ ((r : AuthResult) × ((preferred cfg rs ≡ some r)
            × ((cfg.default_provider ≢ []) × IsFirstFrom cfg.default_provider rs r)))
unfolding preferred
preferred-cases cfg rs = elim (List-cases cfg.default_provider) [
  | inl unset ↦ inl (ground arith, inl unset)
  | inr (c, (cs, set)) ↦
      let named : cfg.default_provider ≢ [] = λ e. cc in
      let goes : preferred cfg rs ≡ first_from cfg.default_provider rs = ground arith in
      rw goes (elim (first_from-cases cfg.default_provider rs) [
        | inl (found, nowhere) ↦ inl (found, inr nowhere)
        | inr (r, (found, first)) ↦ inr (r, (found, (named, first)))
      ])
]

choose-IsChosen :
    (cfg : AuthConfig) (r : AuthResult) (rs : List AuthResult)
    → IsChosen cfg (r ∷ rs) (choose cfg r rs)
unfolding choose
choose-IsChosen cfg r rs = elim (preferred-cases cfg (r ∷ rs)) [
  | inr (found, (e, chosen)) ↦
      let goes : choose cfg r rs ≡ found = ground arith in rw goes (inl chosen)
  | inl (e, unavailable) ↦ elim (first_in_order-cases cfg.fallback_order (r ∷ rs)) [
    | inr (found, (e', first)) ↦
        let goes : choose cfg r rs ≡ found = ground arith in rw goes (inr (unavailable, inl first))
    | inl (e', nowhere) ↦
        let goes : choose cfg r rs ≡ fastest_of r rs = ground arith in
        rw goes (inr (unavailable, inr (nowhere, fastest_of-IsFastest r rs)))
  ]
]

-- Of the answers of `enabled` providers either none is selected, since there is no success or not
-- as many as RequireAllSuccess asks for, or one of the successes is, by the rule of IsChosen.
pub select-IsChosen :
    (cfg : AuthConfig) (enabled : ℕ) (results : List ParallelAuthResult)
    → ((select_best_result cfg enabled results ≡ none)
        × ((success_results results ≡ [])
            ⊎ ((cfg.require_all_success ≡ true) × (length (success_results results) ≢ enabled))))
      ⊎ ((r : AuthResult) × ((select_best_result cfg enabled results ≡ some r)
            × (((cfg.require_all_success ≡ false) ⊎ (length (success_results results) ≡ enabled))
                × IsChosen cfg (success_results results) r)))
unfolding select_best_result
select-IsChosen cfg enabled results = elim (List-cases (success_results results)) [
  | inl empty ↦ inl (ground arith, inl empty)
  | inr (r, (rs, some_success)) ↦
      let chosen : IsChosen cfg (success_results results) (choose cfg r rs) =
        rw some_success (choose-IsChosen cfg r rs) in
      elim (Bool-cases cfg.require_all_success) [
        | inr any ↦ inr (choose cfg r rs, (ground arith, (inl any, chosen)))
        | inl all ↦ elim (Bool-cases (length (success_results results) == enabled)) [
          | inl enough ↦ inr (choose cfg r rs, (ground arith, (inr (ground arith), chosen)))
          | inr missing ↦ inl (ground arith, inr (all, ground arith))
        ]
      ]
]
