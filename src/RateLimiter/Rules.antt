-- ===== src/RateLimiter/Rules.antt =====
-- Rules, their order and their match with a request.
use advanced_golang_tutorial.Prelude.{
  ℕ, Bool, true, false, not, ◌&&◌, List, [], ◌∷◌, ◌++◌, Option, none, some, ltb, if◌then◌else◌,
  length, ◌==◌, ℤ, Text, same_text, has_prefix, has_suffix, contains_byte, split_at, text_mem,
}
pub mod Selection

-- The address and the user agent, which no check reads, are left out.
pub record Request : Type 0 where
  pub client_id : Text
  pub api_key : Text
  pub endpoint : Text
  pub method : Text
  pub user_tier : Text
  pub request_time : ℕ

-- Limits are int64 patterns.
pub record Rule : Type 0 where
  pub name : Text
  pub limit : ℕ
  pub window : ℕ
  pub burst_limit : ℕ
  pub burst_window : ℕ
  pub user_tiers : List Text
  pub endpoints : List Text
  pub methods : List Text
  pub priority : ℤ

abbrev is_empty : List Text → Bool
is_empty [] = true
is_empty (t ∷ ts) = false

wildcard_matches : List Text → Text → Text → Bool
wildcard_matches (prefix ∷ suffix ∷ []) pattern_text endpoint =
    has_prefix endpoint prefix && has_suffix endpoint suffix
wildcard_matches parts pattern_text endpoint = same_text pattern_text endpoint

unfoldable pub endpoint_matches : Text → Text → Bool
unfolding wildcard_matches
endpoint_matches pattern_text endpoint =
    if contains_byte b'*' pattern_text
    then wildcard_matches (split_at b'*' pattern_text) pattern_text endpoint
    else same_text pattern_text endpoint

pub any_endpoint : List Text → Text → Bool
any_endpoint [] endpoint = false
any_endpoint (p ∷ ps) endpoint =
    if endpoint_matches p endpoint then true else any_endpoint ps endpoint

unfoldable pub rule_matches : Rule → Request → Bool
unfolding any_endpoint
rule_matches rule r =
    if not (is_empty rule.user_tiers) && not (text_mem r.user_tier rule.user_tiers)
    then false
    else if not (is_empty rule.endpoints) && not (any_endpoint rule.endpoints r.endpoint)
    then false
    else if not (is_empty rule.methods) && not (text_mem r.method rule.methods)
    then false
    else true

-- The first rule that matches.
unfoldable pub find_applicable_rule : List Rule → Request → Option Rule
find_applicable_rule [] r = none
find_applicable_rule (rule ∷ rules) r =
    if rule_matches rule r then some rule else find_applicable_rule rules r

-- AddRule, over the sort of the package slices.
unfoldable pub add_rule : (List Rule → List Rule) → Rule → List Rule → List Rule
add_rule sort rule rules = sort (rules ++ rule ∷ [])

-- The rules of the constructor, which adds them one by one.
unfoldable pub add_rules : (List Rule → List Rule) → List Rule → List Rule → List Rule
unfolding add_rule
add_rules sort [] rules = rules
add_rules sort (rule ∷ rest) rules = add_rules sort rest (add_rule sort rule rules)
