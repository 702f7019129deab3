-- ===== src/MultiAuth/Tests.antt =====
-- Authentications with two providers, and with the providers of tokens and of keys.
use advanced_golang_tutorial.Prelude.{
  ℕ, ◌+◌, ◌*◌, pos_part, ◌≤◌, ◌≡◌, ◌≢◌, ◌↔◌, refl, true, false, List, [], ◌∷◌, none, some, arith,
  length, Text, same_text, has_prefix, split_at, text_mem, pos, ◌⊎◌, inr,
}
use advanced_golang_tutorial.MultiAuth.Selection.{
  AuthConfig, AuthResult, ParallelAuthResult, provider_failed, success_results, select_best_result,
}
use advanced_golang_tutorial.MultiAuth.Cache.{
  hit, lookup, insert, look_up, touch, touch_entry, new_entry, cache_result,
}
use advanced_golang_tutorial.MultiAuth.{
  new_multi_auth_system, check_cache, touch_cached, finish_authentication, get_enabled_providers,
}
use advanced_golang_tutorial.MultiAuth.Runs.{
  finishes, touches, Running, InTime, step, init, Run, starts, continues,
}
use advanced_golang_tutorial.MultiAuth.Best.{IsChosen, select-IsChosen}
use advanced_golang_tutorial.MultiAuth.Expiry.{IsReturned, check_cache-IsFresh}
use advanced_golang_tutorial.MultiAuth.Limit.{IsVisited, IsOrderly, run-size}
use advanced_golang_tutorial.MultiAuth.Jwt.{Packages, JwtProvider, dot, hs256, authenticate}
use advanced_golang_tutorial.MultiAuth.Jwt.Accepted.{IsAccepted, authenticate-IsAccepted}
use advanced_golang_tutorial.MultiAuth.ApiKey.{
  ApiKeyProvider, authenticate_key, add_api_key, added_key_authenticates,
}
use advanced_golang_tutorial.MultiAuth.Stats.{no_stats}

abbrev jwt : Text
jwt = 106 ∷ 119 ∷ 116 ∷ []

abbrev oauth : Text
oauth = 111 ∷ 97 ∷ []

abbrev from_jwt : AuthResult
from_jwt = record {
  success = true;
  user_id = 49 ∷ [];
  username = [];
  email = [];
  roles = [];
  provider = jwt;
  expires_at = 0;
  issued_at = 0;
  token_hash = [];
  response_time = 30;
}

abbrev from_oauth : AuthResult
from_oauth = record from_jwt { provider = oauth; response_time = 20; expires_at = 40 }

abbrev answered : AuthResult → ParallelAuthResult
answered r = record {
  provider = r.provider;
  result = some r;
  error = none;
  duration = r.response_time;
  timed_out = false;
}

abbrev failed_one : ParallelAuthResult
failed_one = record {
  provider = jwt;
  result = some from_jwt;
  error = some (provider_failed []);
  duration = 1;
  timed_out = true;
}

abbrev config : AuthConfig
config = record {
  enabled_providers = jwt ∷ oauth ∷ [];
  default_provider = [];
  cache_expiration = 100;
  max_cache_size = 1;
  require_all_success = false;
  fallback_order = [];
}

abbrev both : List ParallelAuthResult
both = answered from_jwt ∷ failed_one ∷ answered from_oauth ∷ []

fastest_wins : select_best_result config 2 both ≡ some from_oauth
unfolding select_best_result success_results
fastest_wins = refl

select-IsChosen_example :
    ((select_best_result config 2 both ≡ none)
      × ((success_results both ≡ [])
          ⊎ ((config.require_all_success ≡ true) × (length (success_results both) ≢ 2))))
    ⊎ ((r : AuthResult) × ((select_best_result config 2 both ≡ some r)
          × (((config.require_all_success ≡ false) ⊎ (length (success_results both) ≡ 2))
              × IsChosen config (success_results both) r)))
select-IsChosen_example = select-IsChosen config 2 both

abbrev token_hash : Text
token_hash = 97 ∷ 98 ∷ []

abbrev other_hash : Text
other_hash = 99 ∷ 100 ∷ []

-- A result is stored, looked up and touched, and makes room for another one.
abbrev stored : Running
stored = step (finishes token_hash both 5 []) 6 (init config)

abbrev touched : Running
touched = step (touches token_hash 7) 8 stored

abbrev full : Running
full = step (finishes other_hash both 8 (token_hash ∷ [])) 9 touched

first_call : Run config stored 6
unfolding InTime
first_call = continues (finishes token_hash both 5 []) 6 starts (omega arith) (omega arith)

second_call : Run config full 9
unfolding InTime
second_call =
    continues (finishes other_hash both 8 (token_hash ∷ [])) 9
      (continues (touches token_hash 7) 8
        (continues (finishes token_hash both 5 []) 6 starts (omega arith) (omega arith))
        (omega arith) (omega arith))
      (omega arith) (omega arith)

cached : (check_cache token_hash 7 stored.system).0 ≡ hit from_oauth
unfolding check_cache look_up lookup step finish_authentication get_enabled_providers init
    new_multi_auth_system cache_result insert new_entry select_best_result success_results same_text
cached = refl

check_cache-IsFresh_example :
    (from_oauth.success ≡ true)
    × ((made : ℕ) × (IsReturned first_call token_hash from_oauth made
          × ((made ≤ 6) × ((7 ≤ made + 100) × ((from_oauth.expires_at ≡ 0) ⊎ (7 ≤ 40))))))
check_cache-IsFresh_example = check_cache-IsFresh first_call token_hash 7 from_oauth cached

second_call-IsOrderly : IsOrderly second_call
unfolding IsOrderly IsVisited step finish_authentication get_enabled_providers init
    new_multi_auth_system cache_result insert new_entry select_best_result success_results same_text
    text_mem second_call touch_cached touch_entry touch
second_call-IsOrderly =
    (omega arith, ((λ e. cc, (refl, tt)), (omega arith, (tt, (omega arith, ((λ e. cc, tt), tt))))))

run-size_example : length full.system.cache.cache ≤ 1
run-size_example = run-size second_call second_call-IsOrderly

abbrev packages : Packages
packages = record {
  base64_decode = λ t. some t;
  unmarshal_header = λ t. some (record { algorithm = hs256; header_type = [] });
  unmarshal_payload = λ t. some (record {
    issuer = [];
    subject = t;
    audience = [];
    expires_at = pos 0;
    not_before = pos 0;
    issued_at = pos 0;
    jwt_id = [];
    username = [];
    email = [];
    roles = [];
  });
  has_claims = λ t. true;
  hmac_sha256 = λ key t. key;
  hash_token = λ t. t;
  time_unix = λ z. (62135596800 + pos_part z) * 1000000000;
}

abbrev jwt_provider : JwtProvider
jwt_provider = record {
  name = jwt;
  secret_key = 115 ∷ [];
  issuer = [];
  audience = [];
  stats = no_stats;
}

-- The token "h.b.s".
abbrev token : Text
token = 104 ∷ dot ∷ 98 ∷ dot ∷ 115 ∷ []

-- Its owner, for an hour.
abbrev for_an_hour : AuthResult
for_an_hour = record {
  success = true;
  user_id = 98 ∷ [];
  username = [];
  email = [];
  roles = [];
  provider = jwt;
  expires_at = 3600000000005;
  issued_at = 62135596800000000000;
  token_hash = token;
  response_time = 0;
}

token_accepted : (authenticate packages 5 1 token jwt_provider).0 ≡ inr for_an_hour
unfolding authenticate split_at
token_accepted = refl

authenticate-IsAccepted_example :
    ((authenticate packages 5 1 token jwt_provider).0 ≡ inr for_an_hour)
    ↔ IsAccepted packages jwt_provider 5 token for_an_hour
authenticate-IsAccepted_example =
    authenticate-IsAccepted packages 5 1 token jwt_provider for_an_hour

abbrev key_provider : ApiKeyProvider
key_provider = record {
  name = oauth;
  api_keys = λ k. none;
  header_name = [];
  key_prefix = 107 ∷ [];
  stats = no_stats;
}

abbrev key : Text
key = 107 ∷ 49 ∷ []

key_accepted :
    (authenticate_key (λ t. t) key 7 1 (add_api_key key (49 ∷ []) [] [] [] 9 3 key_provider)).0
    ≡ inr (record {
      success = true;
      user_id = 49 ∷ [];
      username = [];
      email = [];
      roles = [];
      provider = oauth;
      expires_at = 9;
      issued_at = 3;
      token_hash = key;
      response_time = 0;
    })
unfolding has_prefix
key_accepted = added_key_authenticates (λ t. t) key (49 ∷ []) [] [] [] 9 3 7 1 key_provider
