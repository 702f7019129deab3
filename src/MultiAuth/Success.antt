-- ===== src/MultiAuth/Success.antt =====
-- The results that a call returns are those of successes.
use advanced_golang_tutorial.Prelude.{
  ℕ, ◌≡◌, subst, true, List, [], ◌∷◌, ◌++◌, some, arith, Option-cases, inl, inr, All, All-middle,
  length, Text,
}
use advanced_golang_tutorial.MultiAuth.Selection.{
  AuthConfig, AuthResult, ParallelAuthResult, success_of, success_results, select_best_result,
}
use advanced_golang_tutorial.MultiAuth.{
  MultiAuthSystem, finish_authentication, get_enabled_providers,
}
use advanced_golang_tutorial.MultiAuth.Best.{IsChosen, select-IsChosen}

chosen-Succeeds :
    (p : ParallelAuthResult) (r : AuthResult) → success_of p ≡ some r → r.success ≡ true
unfolding success_of
chosen-Succeeds p r e = elim (Option-cases p.error) [
  | inr (failed, e') ↦ ground arith
  | inl none_failed ↦ elim (Option-cases p.result) [
    | inl absent ↦ ground arith
    | inr (a, found) ↦ ground arith
  ]
]

successes-Succeed :
    (ps : List ParallelAuthResult) → All (λ r. r.success ≡ true) (success_results ps)
unfolding success_results
successes-Succeed [] = tt
successes-Succeed (p ∷ ps) = elim (Option-cases (success_of p)) [
  | inl failed ↦
      let goes : success_results (p ∷ ps) ≡ success_results ps = ground arith in
      rw goes (successes-Succeed ps)
  | inr (r, e) ↦
      let goes : success_results (p ∷ ps) ≡ r ∷ success_results ps = ground arith in
      rw goes (chosen-Succeeds p r e, successes-Succeed ps)
]

Succeeds-part :
    (rs before : List AuthResult) (r : AuthResult) (after : List AuthResult)
    → rs ≡ before ++ r ∷ after
    → All (λ x. x.success ≡ true) rs
    → r.success ≡ true
Succeeds-part rs before r after parts all =
    All-middle (λ x. x.success ≡ true) before r after
      (subst (All (λ x. x.success ≡ true)) parts all)

IsChosen-Succeeds :
    (cfg : AuthConfig) (rs : List AuthResult) (r : AuthResult)
    → IsChosen cfg rs r
    → All (λ x. x.success ≡ true) rs
    → r.success ≡ true
IsChosen-Succeeds cfg rs r (inl (set, f)) all = Succeeds-part rs f.before r f.after f.parts all
IsChosen-Succeeds cfg rs r (inr (unset, inl f)) all =
    Succeeds-part rs f.first.before r f.first.after f.first.parts all
IsChosen-Succeeds cfg rs r (inr (unset, inr (nowhere, f))) all =
    Succeeds-part rs f.before r f.after f.parts all

selected-Succeeds :
    (cfg : AuthConfig) (enabled : ℕ) (results : List ParallelAuthResult) (r : AuthResult)
    → select_best_result cfg enabled results ≡ some r
    → r.success ≡ true
selected-Succeeds cfg enabled results r e = elim (select-IsChosen cfg enabled results) [
  | inl (nothing, why) ↦ cc
  | inr (x, (selected, (enough, chosen))) ↦
      let succeeds =
        IsChosen-Succeeds cfg (success_results results) x chosen (successes-Succeed results) in
      ground arith
]

pub returns-Succeeds :
    (k : Text) (results : List ParallelAuthResult) (made now : ℕ) (visits : List Text)
    (mas : MultiAuthSystem) (r : AuthResult)
    → (finish_authentication k results made now visits mas).0 ≡ inr r
    → r.success ≡ true
unfolding finish_authentication
returns-Succeeds k results made now visits mas r e =
    let enabled = length (get_enabled_providers mas) in
    elim (Option-cases (select_best_result mas.config enabled results)) [
      | inl nothing ↦ ground arith
      | inr (x, selected) ↦
          let succeeds = selected-Succeeds mas.config enabled results x selected in ground arith
    ]
