-- ===== src/MultiAuth/Selection.antt =====
-- The configuration, the answers of the providers and the choice among them, selectBestResult, of
-- 04_concurrent_programming_for_web_processing/ans_02/multi_auth_system.go. An instant is a number
-- of nanoseconds since the zero time.Time, which is 0; no duration is negative. The claims of a
-- result are left out: no other field depends on them.
use advanced_golang_tutorial.Prelude.{
  ℕ, Bool, List, [], ◌∷◌, Option, none, some, if◌then◌else◌, ltb, ◌==◌, length, Text, same_text,
}

pub record AuthConfig : Type 0 where
  pub enabled_providers : List Text
  pub default_provider : Text
  pub cache_expiration : ℕ
  pub max_cache_size : ℕ
  pub require_all_success : Bool
  pub fallback_order : List Text

pub record AuthResult : Type 0 where
  pub success : Bool
  pub user_id : Text
  pub username : Text
  pub email : Text
  pub roles : List Text
  pub provider : Text
  pub expires_at : ℕ
  pub issued_at : ℕ
  pub token_hash : Text
  pub response_time : ℕ

pub data ProviderError : Type 0 where
  provider_not_found : ProviderError
  provider_failed : Text → ProviderError

pub record ParallelAuthResult : Type 0 where
  pub provider : Text
  pub result : Option AuthResult
  pub error : Option ProviderError
  pub duration : ℕ
  pub timed_out : Bool

-- What selectBestResult collects of one answer.
unfoldable pub success_of : ParallelAuthResult → Option AuthResult
success_of p = elim p.error [
  | some e ↦ none
  | none ↦ elim p.result [ none ↦ none | some r ↦ if r.success then some r else none ]
]

unfoldable pub success_results : List ParallelAuthResult → List AuthResult
unfolding success_of
success_results [] = []
success_results (p ∷ ps) =
    let rest = success_results ps in elim (success_of p) [ none ↦ rest | some r ↦ r ∷ rest ]

unfoldable pub first_from : Text → List AuthResult → Option AuthResult
unfolding same_text
first_from name [] = none
first_from name (r ∷ rs) =
    let rest = first_from name rs in if same_text r.provider name then some r else rest

unfoldable pub first_in_order : List Text → List AuthResult → Option AuthResult
unfolding first_from
first_in_order [] rs = none
first_in_order (name ∷ names) rs =
    let rest = first_in_order names rs in
    elim (first_from name rs) [ none ↦ rest | some r ↦ some r ]

unfoldable pub fastest_of : AuthResult → List AuthResult → AuthResult
fastest_of fastest [] = fastest
fastest_of fastest (r ∷ rs) =
    fastest_of (if ltb r.response_time fastest.response_time then r else fastest) rs

unfoldable pub preferred : AuthConfig → List AuthResult → Option AuthResult
unfolding first_from
preferred cfg rs =
    if length cfg.default_provider == 0 then none else first_from cfg.default_provider rs

unfoldable pub choose : AuthConfig → AuthResult → List AuthResult → AuthResult
unfolding preferred first_in_order fastest_of
choose cfg r rs = elim (preferred cfg (r ∷ rs)) [
  | some found ↦ found
  | none ↦ elim (first_in_order cfg.fallback_order (r ∷ rs)) [
    | some found ↦ found
    | none ↦ fastest_of r rs
  ]
]

-- `enabled` is the number of the enabled providers.
unfoldable pub select_best_result : AuthConfig → ℕ → List ParallelAuthResult → Option AuthResult
unfolding success_results choose
select_best_result cfg enabled results = elim (success_results results) [
  | [] ↦ none
  | r ∷ rs ↦
      if cfg.require_all_success
      then if length (r ∷ rs) == enabled then some (choose cfg r rs) else none
      else some (choose cfg r rs)
]
