-- ===== src/MultiAuth/ApiKey.antt =====
-- The provider of API keys. A key is stored and looked up without the provider's prefix.
use advanced_golang_tutorial.Prelude.{
  ℕ, ◌≡◌, Bool, true, false, List, Option, none, some, arith, if◌then◌else◌, ltb, leb, ◌==◌, length,
  drop, Text, same_text, same_text_refl, has_prefix, ◌⊎◌, inl, inr,
}
use advanced_golang_tutorial.MultiAuth.Selection.{AuthResult}
use advanced_golang_tutorial.MultiAuth.Stats.{ProviderStats, record_stats}

pub record ApiKeyInfo : Type 0 where
  pub key_id : Text
  pub user_id : Text
  pub username : Text
  pub email : Text
  pub roles : List Text
  pub created_at : ℕ
  pub expires_at : ℕ
  pub is_active : Bool

pub record ApiKeyProvider : Type 0 where
  pub name : Text
  pub api_keys : Text → Option ApiKeyInfo
  pub header_name : Text
  pub key_prefix : Text
  pub stats : ProviderStats

pub data ApiKeyError : Type 0 where
  invalid_key_format : ApiKeyError
  key_not_found : ApiKeyError
  key_inactive : ApiKeyError
  key_expired : ApiKeyError

-- strings.TrimPrefix.
unfoldable pub trim_prefix : Text → Text → Text
unfolding has_prefix
trim_prefix s prefix = if has_prefix s prefix then drop (length prefix) s else s

-- `now` is the instant of the call.
unfoldable pub add_api_key :
    Text → Text → Text → Text → List Text → ℕ → ℕ → ApiKeyProvider → ApiKeyProvider
unfolding trim_prefix same_text
add_api_key key_id user_id username email roles expires_at now a =
    let key = trim_prefix key_id a.key_prefix in
    let info : ApiKeyInfo = record {
      key_id = key;
      user_id = user_id;
      username = username;
      email = email;
      roles = roles;
      created_at = now;
      expires_at = expires_at;
      is_active = true;
    } in
    record a { api_keys = λ k. if same_text k key then some info else a.api_keys k }

unfoldable pub is_past : ℕ → ApiKeyInfo → Bool
is_past now i = if i.expires_at == 0 then false else ltb i.expires_at now

unfoldable pub accept :
    (Text → Text) → Text → ℕ → ApiKeyProvider → ApiKeyInfo → ApiKeyError ⊎ AuthResult
unfolding is_past
accept hash_token token now a i =
    if i.is_active
    then if is_past now i
      then inl key_expired
      else inr (record {
        success = true;
        user_id = i.user_id;
        username = i.username;
        email = i.email;
        roles = i.roles;
        provider = a.name;
        expires_at = i.expires_at;
        issued_at = i.created_at;
        token_hash = hash_token token;
        response_time = 0;
      })
    else inl key_inactive

unfoldable pub find_key : (Text → Text) → Text → ℕ → ApiKeyProvider → ApiKeyError ⊎ AuthResult
unfolding trim_prefix accept
find_key hash_token token now a = elim (a.api_keys (trim_prefix token a.key_prefix)) [
  | none ↦ inl key_not_found
  | some i ↦ accept hash_token token now a i
]

unfoldable pub authenticate_key :
    (Text → Text) → Text → ℕ → ℕ → ApiKeyProvider → (ApiKeyError ⊎ AuthResult) × ApiKeyProvider
unfolding find_key has_prefix record_stats
authenticate_key hash_token token now latency a =
    let outcome : ApiKeyError ⊎ AuthResult =
      if has_prefix token a.key_prefix
      then find_key hash_token token now a
      else inl invalid_key_format in
    let failed : Bool = elim outcome [ inl e ↦ true | inr r ↦ false ] in
    (outcome, record a { stats = record_stats latency failed a.stats })

-- A key that has the prefix and was just added is accepted, as its owner's, exactly until it
-- expires; a key with the expiry 0 never does. A key that was added without the prefix is refused
-- as such, since the format is tested first.
pub added_key_authenticates :
    (hash_token : Text → Text) (key_id user_id username email : Text) (roles : List Text)
    (expires_at made now latency : ℕ) (a : ApiKeyProvider)
    → (authenticate_key hash_token key_id now latency
        (add_api_key key_id user_id username email roles expires_at made a)).0
      ≡ (if has_prefix key_id a.key_prefix
          then if (if expires_at == 0 then true else leb now expires_at)
            then inr (record {
              success = true;
              user_id = user_id;
              username = username;
              email = email;
              roles = roles;
              provider = a.name;
              expires_at = expires_at;
              issued_at = made;
              token_hash = hash_token key_id;
              response_time = 0;
            })
            else inl key_expired
          else inl invalid_key_format)
unfolding authenticate_key find_key accept is_past add_api_key
added_key_authenticates hash_token key_id user_id username email roles expires_at made now latency
      a =
    let same = same_text_refl (trim_prefix key_id a.key_prefix) in ground arith
